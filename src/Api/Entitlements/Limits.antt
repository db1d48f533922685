-- ===== src/Api/Entitlements/Limits.antt =====
-- An app that passes the check and is counted leaves its tenant within the limits of its plan.
use mikrom.Prelude.{◌≡◌, refl, String, Bool, true, some, ◌&&◌, same_refl, arith, inl, inr, ◌⊎◌}
use mikrom.Prelude.Int.{ℤ, pos, negsuc, leqb, add, wrap_i32, fits_i32}
use mikrom.Api.Plans.{PlanLimits, PlanTier, TenantUsage, DomainError, Db, Result, ok, err, usage_of}
use mikrom.Api.Plans.Repositories.{
  Faults, get_tenant_tier, get_or_create, increment_apps, apps_added, apps_fit,
}
use mikrom.Api.Plans.Rows.{
  tier_in_force, usage_of-update, get_tenant_tier-reads, get_or_create-gets,
}
use mikrom.Api.Entitlements.{EntitlementCheck, create_app, check_against, check_entitlement, plus}

wrap_fits : (z : ℤ) → fits_i32 z ≡ true → wrap_i32 z ≡ z
wrap_fits (pos n) h = ground arith
wrap_fits (negsuc n) h = ground arith

-- What a tenant uses for its apps is what its plan allows at most.
abbrev pub within : PlanLimits → TenantUsage → Bool
within limits u =
    leqb u.apps_count limits.max_apps
    && leqb u.vcpus_total limits.max_vcpus_total
    && leqb u.memory_mb_total limits.max_memory_mb_total
    && leqb u.storage_gb_total limits.max_storage_gb_total

module _ (fault : Faults) (vcpus memory_mb storage_gb : ℤ) (autoscaling : Bool) where
  -- An app of this size.
  abbrev app : EntitlementCheck
  app = create_app vcpus memory_mb storage_gb autoscaling

  abbrev sums_within : PlanLimits → TenantUsage → Bool
  sums_within limits u =
      leqb (plus u.apps_count (pos 1)) limits.max_apps
      && leqb (plus u.vcpus_total vcpus) limits.max_vcpus_total
      && leqb (plus u.memory_mb_total memory_mb) limits.max_memory_mb_total
      && leqb (plus u.storage_gb_total storage_gb) limits.max_storage_gb_total

  check_against-sums :
      (limits : PlanLimits) (u : TenantUsage) (db : Db)
      → (check_against fault limits u app db).0 ≡ ok tt
      → sums_within limits u ≡ true
  unfolding check_against
  check_against-sums limits u db e = ground arith

  check_against-keeps :
      (limits : PlanLimits) (u : TenantUsage) (db : Db)
      → (check_against fault limits u app db).1 ≡ db
  unfolding check_against
  check_against-keeps limits u db = ground arith

  counted-within :
      (limits : PlanLimits) (u : TenantUsage)
      → sums_within limits u ≡ true
      → apps_fit fault (apps_added fault (pos 1) vcpus memory_mb storage_gb u) ≡ true
      → within limits (apps_added fault (pos 1) vcpus memory_mb storage_gb u) ≡ true
  counted-within limits u s f = ground (
    arith,
    wrap_fits (add u.apps_count (pos 1)),
    wrap_fits (add u.vcpus_total vcpus),
    wrap_fits (add u.memory_mb_total memory_mb),
    wrap_fits (add u.storage_gb_total storage_gb),
  )

pub Result-cases :
    {A : Type 0} (r : Result A) → ((a : A) × (r ≡ ok a)) ⊎ ((e : DomainError) × (r ≡ err e))
Result-cases (ok a) = inl (a, refl)
Result-cases (err e) = inr (e, refl)

module _ (fault : Faults) (k : String) (vcpus memory_mb storage_gb : ℤ) (autoscaling : Bool)
    (db : Db) where
  abbrev checked_db : Db
  checked_db = (check_entitlement fault k (create_app vcpus memory_mb storage_gb autoscaling) db).1

  passed-sums :
      (tier : PlanTier)
      → tier_in_force k db ≡ some tier
      → (check_entitlement fault k (create_app vcpus memory_mb storage_gb autoscaling) db).0 ≡ ok tt
      → (u : TenantUsage) × (usage_of k checked_db.tenant_usage ≡ some u)
        × (sums_within fault vcpus memory_mb storage_gb autoscaling tier.limits u ≡ true)
  unfolding check_entitlement
  passed-sums tier force e =
      let db1 : Db = (get_tenant_tier fault k db).1 in
      let db2 : Db = (get_or_create fault k db1).1 in
      elim (Result-cases (get_tenant_tier fault k db).0) [
        | inr (x, e1) ↦ absurd (ground (arith, e, e1))
        | inl (t, e1) ↦ elim (Result-cases (get_or_create fault k db1).0) [
          | inr (x, e2) ↦ absurd (ground (arith, e, e1, e2))
          | inl (u, e2) ↦ (
            u,
            ground (
              arith,
              e,
              e1,
              e2,
              check_against-keeps fault vcpus memory_mb storage_gb autoscaling t.limits u db2,
              get_or_create-gets fault k db1 u,
            ),
            ground (
              arith,
              e,
              e1,
              e2,
              check_against-sums fault vcpus memory_mb storage_gb autoscaling t.limits u db2,
              get_tenant_tier-reads fault k db t,
            ),
          )
        ]
      ]

  counted-usage :
      (d : Db) (u v : TenantUsage)
      → usage_of k d.tenant_usage ≡ some u
      → (increment_apps fault k (pos 1) vcpus memory_mb storage_gb d).0 ≡ ok tt
      → usage_of k (increment_apps fault k (pos 1) vcpus memory_mb storage_gb d).1.tenant_usage
        ≡ some v
      → (apps_fit fault (apps_added fault (pos 1) vcpus memory_mb storage_gb u) ≡ true)
        × (v ≡ apps_added fault (pos 1) vcpus memory_mb storage_gb u)
  unfolding increment_apps
  counted-usage d u v e h g =
      let l =
        usage_of-update k k (apps_added fault (pos 1) vcpus memory_mb storage_gb) d.tenant_usage
          (λ (w : TenantUsage). refl) in
      (ground (arith, e, h, g, l, same_refl k), ground (arith, e, h, g, l, same_refl k))

  -- When an app of some size passes the check of the plan and is then counted, both without an error, the
  -- tenant's apps, vCPUs, memory and storage as counted are within the limits of the tier that it had when
  -- the check began, whatever else failed.
  pub created_app-within :
      (tier : PlanTier) (v : TenantUsage)
      → tier_in_force k db ≡ some tier
      → (check_entitlement fault k (create_app vcpus memory_mb storage_gb autoscaling) db).0 ≡ ok tt
      → (increment_apps fault k (pos 1) vcpus memory_mb storage_gb checked_db).0 ≡ ok tt
      → usage_of k
          (increment_apps fault k (pos 1) vcpus memory_mb storage_gb checked_db).1.tenant_usage
        ≡ some v
      → within tier.limits v ≡ true
  created_app-within tier v force passed counted now =
      let (u, had, sums) = passed-sums tier force passed in
      let (fits, is) = counted-usage checked_db u v had counted now in
      rw (is) (counted-within fault vcpus memory_mb storage_gb autoscaling tier.limits u sums fits)
