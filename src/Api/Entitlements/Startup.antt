-- ===== src/Api/Entitlements/Startup.antt =====
-- What the start of the server does to the plans of tenants.
use mikrom.Prelude.{
  ℕ, suc, ◌≡◌, String, Option, none, some, List, [], ◌∷◌, if◌then◌else◌, same, same_refl,
  eq_of_same, Member, arith, inl, inr, ◌⊎◌,
}
use mikrom.Api.Plans.{as_str, PlanTier, TenantBilling, Db, set_plan, billing_of, default_tier_of}
use mikrom.Api.Plans.Repositories.{Faults, after}
use mikrom.Api.Plans.Rows.{get_or_create-OnlyUsageOf}
use mikrom.Api.Entitlements.{ensure_tenant_has_tier, ensure_all, migrate_existing_tenants}

-- The name of the plan of a tenant.
abbrev pub plan_of : String → List TenantBilling → Option String
plan_of k bs = elim (billing_of k bs) [ none ↦ none | some b ↦ some b.plan_name ]

plan_of-set :
    (j k plan : String) (bs : List TenantBilling)
    → plan_of j (set_plan k plan bs) ≡ (if same k j then some plan else plan_of j bs)
unfolding set_plan
plan_of-set j k plan [] = ground arith
plan_of-set j k plan (b ∷ bs) = ground (
  arith,
  plan_of-set j k plan bs,
  eq_of_same b.tenant_id k,
  eq_of_same b.tenant_id j,
  eq_of_same k j,
  same_refl k,
)

module _ (fault : Faults) (working : (n : ℕ) → fault n ≡ none) (d : PlanTier) where
  ensured :
      (t : String) (db : Db)
      → default_tier_of db.plan_tiers ≡ some d
      → ((ensure_tenant_has_tier fault t db).1.plan_tiers ≡ db.plan_tiers)
        × ((ensure_tenant_has_tier fault t db).1.tenant_billing
            ≡ set_plan t (as_str d.tier_slug) db.tenant_billing)
  unfolding ensure_tenant_has_tier
  ensured t db e =
      let db2 : Db = after (record (after db) {
        tenant_billing = set_plan t (as_str d.tier_slug) db.tenant_billing;
      }) in
      let o = get_or_create-OnlyUsageOf fault t db2 in
      (
        ground (arith, e, working db.sent, working (suc db.sent), o.tiers),
        ground (arith, e, working db.sent, working (suc db.sent), o.plans),
      )

  all_ensured :
      (k : String) (ts : List String) (db : Db)
      → default_tier_of db.plan_tiers ≡ some d
      → Member k ts ⊎ (plan_of k db.tenant_billing ≡ some (as_str d.tier_slug))
      → plan_of k (ensure_all fault ts db).1.tenant_billing ≡ some (as_str d.tier_slug)
  unfolding ensure_all
  all_ensured k [] db e (inl m) = absurd m
  all_ensured k [] db e (inr h) = h
  all_ensured k (t ∷ ts) db e m =
      let db1 : Db = (ensure_tenant_has_tier fault t db).1 in
      let o = ensured t db e in
      all_ensured k ts db1 (rw (o.0) e)
        (listed m (rw (o.1) (plan_of-set k t (as_str d.tier_slug) db.tenant_billing)))
    where
      listed :
          {q : Option String}
          → Member k (t ∷ ts) ⊎ (plan_of k db.tenant_billing ≡ some (as_str d.tier_slug))
          → q ≡ (if same t k then some (as_str d.tier_slug) else plan_of k db.tenant_billing)
          → Member k ts ⊎ (q ≡ some (as_str d.tier_slug))
      listed (inl (inl s)) p = inr (ground (arith, s, p, same_refl k))
      listed (inl (inr n)) p = inl n
      listed (inr h) p = inr (ground (arith, h, p))

  -- When the server starts and the database answers every statement, every tenant ends up on the default
  -- tier, whatever plan it had.
  pub startup_resets_plans :
      (db : Db)
      → default_tier_of db.plan_tiers ≡ some d
      → (k : String) → Member k db.tenants
      → plan_of k (migrate_existing_tenants fault db).1.tenant_billing ≡ some (as_str d.tier_slug)
  unfolding migrate_existing_tenants
  startup_resets_plans db e k m =
      ground (arith, working db.sent, all_ensured k db.tenants (after db) e (inl m))
