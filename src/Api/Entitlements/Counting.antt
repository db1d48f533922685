-- ===== src/Api/Entitlements/Counting.antt =====
-- What a check leaves as it was, and what counting an app and discounting it comes to.
use mikrom.Prelude.{
  zero, suc, ◌≡◌, refl, ap, ◌∙◌, String, Bool, true, some, ◌&&◌, same_refl, arith, inl, inr,
}
use mikrom.Prelude.Int.{ℤ, pos, negsuc, add, negate, at_least_zero, leqb}
use mikrom.Api.Plans.{PlanLimits, TenantUsage, Db, ok, usage_of}
use mikrom.Api.Plans.Repositories.{
  Faults, get_or_create, get_tenant_tier, increment_apps, decrement_apps, apps_added, apps_removed,
}
use mikrom.Api.Plans.Rows.{
  OnlyUsageOf, get_or_create-OnlyUsageOf, get_tenant_tier-keeps, usage_of-update,
}
use mikrom.Api.Entitlements.Limits.{Result-cases}
use mikrom.Api.Entitlements.{
  EntitlementCheck, create_app, create_deployment, create_database, create_volume,
  enable_autoscaling, custom_domains, add_team_member, check_against, check_entitlement,
}

module _ (fault : Faults) where
  check_against-reads :
      (limits : PlanLimits) (u : TenantUsage) (check : EntitlementCheck) (db : Db)
      → ((check_against fault limits u check db).1.plan_tiers ≡ db.plan_tiers)
        × ((check_against fault limits u check db).1.tenant_billing ≡ db.tenant_billing)
        × ((check_against fault limits u check db).1.tenants ≡ db.tenants)
        × ((check_against fault limits u check db).1.tenant_usage ≡ db.tenant_usage)
  unfolding check_against
  check_against-reads limits u (create_app a b c d) db = ground arith
  check_against-reads limits u create_deployment db = ground arith
  check_against-reads limits u create_database db = ground arith
  check_against-reads limits u (create_volume a) db = ground arith
  check_against-reads limits u enable_autoscaling db = ground arith
  check_against-reads limits u custom_domains db = ground arith
  check_against-reads limits u add_team_member db = ground arith

  -- A check of an entitlement, whatever it asks and however its statements end, leaves tiers, plans and
  -- tenants as they were, and the usage rows too, except that a tenant without one may get a row of zeros.
  pub check_entitlement-OnlyUsageOf :
      (k : String) (check : EntitlementCheck) (db : Db)
      → OnlyUsageOf k db (check_entitlement fault k check db).1
  unfolding check_entitlement
  check_entitlement-OnlyUsageOf k check db =
      let db1 : Db = (get_tenant_tier fault k db).1 in
      let db2 : Db = (get_or_create fault k db1).1 in
      let read = get_tenant_tier-keeps fault k db in
      let made = get_or_create-OnlyUsageOf fault k db1 in
      elim (Result-cases (get_tenant_tier fault k db).0) [
        | inr (x, e1) ↦ record {
          tiers = ground (arith, e1, read);
          plans = ground (arith, e1, read);
          tenants = ground (arith, e1, read);
          usage = ground (arith, e1, read);
        }
        | inl (t, e1) ↦ elim (Result-cases (get_or_create fault k db1).0) [
          | inr (x, e2) ↦ record {
            tiers = ground (arith, e1, e2, read, made.tiers);
            plans = ground (arith, e1, e2, read, made.plans);
            tenants = ground (arith, e1, e2, read, made.tenants);
            usage = ground (arith, e1, e2, read, made.usage);
          }
          | inl (u, e2) ↦
              let last = check_against-reads t.limits u check db2 in
              record {
                tiers = ground (arith, e1, e2, read, made.tiers, last);
                plans = ground (arith, e1, e2, read, made.plans, last);
                tenants = ground (arith, e1, e2, read, made.tenants, last);
                usage = ground (arith, e1, e2, read, made.usage, last);
              }
        ]
      ]

-- The counters of a row that apps change are not negative.
abbrev pub counts_apps : TenantUsage → Bool
counts_apps u =
    leqb (pos 0) u.apps_count
    && leqb (pos 0) u.vcpus_total
    && leqb (pos 0) u.memory_mb_total
    && leqb (pos 0) u.storage_gb_total

less_back : (a b : ℤ) → leqb (pos 0) a ≡ true → at_least_zero (add (add a b) (negate b)) ≡ a
unfolding leqb
less_back (pos m) (pos zero) h = ground arith
less_back (pos m) (pos (suc n)) h = ground arith
less_back (pos m) (negsuc n) h = ground arith
less_back (negsuc m) b h = absurd (cc)

module _ (fault : Faults) (k : String) (vcpus memory_mb storage_gb : ℤ) (db : Db) where
  incremented :
      (d : Db) (u : TenantUsage)
      → usage_of k d.tenant_usage ≡ some u
      → (increment_apps fault k (pos 1) vcpus memory_mb storage_gb d).0 ≡ ok tt
      → usage_of k (increment_apps fault k (pos 1) vcpus memory_mb storage_gb d).1.tenant_usage
        ≡ some (apps_added fault (pos 1) vcpus memory_mb storage_gb u)
  unfolding increment_apps
  incremented d u had done =
      let l =
        usage_of-update k k (apps_added fault (pos 1) vcpus memory_mb storage_gb) d.tenant_usage
          (λ (w : TenantUsage). refl) in
      ground (arith, had, done, l, same_refl k)

  decremented :
      (d : Db) (u : TenantUsage)
      → usage_of k d.tenant_usage ≡ some u
      → (decrement_apps fault k vcpus memory_mb storage_gb d).0 ≡ ok tt
      → usage_of k (decrement_apps fault k vcpus memory_mb storage_gb d).1.tenant_usage
        ≡ some (apps_removed fault vcpus memory_mb storage_gb u)
  unfolding decrement_apps
  decremented d u had done =
      let l =
        usage_of-update k k (apps_removed fault vcpus memory_mb storage_gb) d.tenant_usage
          (λ (w : TenantUsage). refl) in
      ground (arith, had, done, l, same_refl k)

  removed-added :
      (u : TenantUsage)
      → counts_apps u ≡ true
      → apps_removed fault vcpus memory_mb storage_gb
          (apps_added fault (pos 1) vcpus memory_mb storage_gb u)
        ≡ u
  removed-added u c = ground (
    arith,
    less_back u.apps_count (pos 1),
    less_back u.vcpus_total vcpus,
    less_back u.memory_mb_total memory_mb,
    less_back u.storage_gb_total storage_gb,
  )

  -- An app that is counted and then discounted, both without an error, leaves the usage row of its tenant as
  -- it was, if it had one with no negative counter.
  pub decrement-increment :
      (u : TenantUsage)
      → usage_of k db.tenant_usage ≡ some u
      → counts_apps u ≡ true
      → (increment_apps fault k (pos 1) vcpus memory_mb storage_gb db).0 ≡ ok tt
      → (decrement_apps fault k vcpus memory_mb storage_gb
          (increment_apps fault k (pos 1) vcpus memory_mb storage_gb db).1).0
        ≡ ok tt
      → usage_of k
          (decrement_apps fault k vcpus memory_mb storage_gb
            (increment_apps fault k (pos 1) vcpus memory_mb storage_gb db).1).1.tenant_usage
        ≡ some u
  decrement-increment u had counts up down =
      decremented (increment_apps fault k (pos 1) vcpus memory_mb storage_gb db).1
        (apps_added fault (pos 1) vcpus memory_mb storage_gb u) (incremented db u had up) down
      ∙ ap some (removed-added u counts)
