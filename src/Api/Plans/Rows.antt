-- ===== src/Api/Plans/Rows.antt =====
-- What the statements on plans and usage leave of the rows.
use mikrom.Prelude.{
  ◌≡◌, String, Option, none, some, List, [], ◌∷◌, if◌then◌else◌, same, same_refl, eq_of_same, arith,
  ◌⊎◌,
}
use mikrom.Api.Plans.{
  PlanTier, TenantUsage, Db, ok, update_usage, no_usage, usage_of, default_tier_of, joined_tier,
}
use mikrom.Api.Plans.Repositories.{Faults, get_tenant_tier, get_or_create}

pub usage_of-update :
    (j k : String) (f : TenantUsage → TenantUsage) (us : List TenantUsage)
    → ((u : TenantUsage) → (f u).tenant_id ≡ u.tenant_id)
    → usage_of j (update_usage k f us) ≡ (
        if same k j
        then elim (usage_of j us) [ none ↦ none | some u ↦ some (f u) ]
        else usage_of j us)
usage_of-update j k f [] h = ground arith
usage_of-update j k f (u ∷ us) h = ground (
  arith,
  usage_of-update j k f us h,
  eq_of_same u.tenant_id k,
  eq_of_same u.tenant_id j,
  eq_of_same k j,
  same_refl k,
  h u,
)

-- The tier that a tenant has: its plan's, or the default one.
abbrev pub tier_in_force : String → Db → Option PlanTier
tier_in_force k db = elim (joined_tier k db) [
  | none ↦ default_tier_of db.plan_tiers
  | some t ↦ some t
]

-- Tiers, plans and tenants are the same, and so are the usage rows but for a new one of one tenant.
pub record OnlyUsageOf (k : String) (a b : Db) : Type 0 where
  pub tiers : b.plan_tiers ≡ a.plan_tiers
  pub plans : b.tenant_billing ≡ a.tenant_billing
  pub tenants : b.tenants ≡ a.tenants
  pub usage :
      (b.tenant_usage ≡ a.tenant_usage)
      ⊎ ((usage_of k a.tenant_usage ≡ none) × (b.tenant_usage ≡ no_usage k ∷ a.tenant_usage))

module _ (fault : Faults) (k : String) (db : Db) where
  pub get_tenant_tier-reads :
      (tier : PlanTier) → (get_tenant_tier fault k db).0 ≡ ok tier → tier_in_force k db ≡ some tier
  unfolding get_tenant_tier
  get_tenant_tier-reads tier e = ground arith

  pub get_tenant_tier-keeps :
      ((get_tenant_tier fault k db).1.plan_tiers ≡ db.plan_tiers)
      × ((get_tenant_tier fault k db).1.tenant_billing ≡ db.tenant_billing)
      × ((get_tenant_tier fault k db).1.tenants ≡ db.tenants)
      × ((get_tenant_tier fault k db).1.tenant_usage ≡ db.tenant_usage)
  unfolding get_tenant_tier
  get_tenant_tier-keeps = ground arith

  pub get_or_create-gets :
      (u : TenantUsage)
      → (get_or_create fault k db).0 ≡ ok u
      → usage_of k (get_or_create fault k db).1.tenant_usage ≡ some u
  unfolding get_or_create
  get_or_create-gets u e = ground arith

  pub get_or_create-OnlyUsageOf : OnlyUsageOf k db (get_or_create fault k db).1
  unfolding get_or_create
  get_or_create-OnlyUsageOf = record {
    tiers = ground arith;
    plans = ground arith;
    tenants = ground arith;
    usage = ground arith;
  }
