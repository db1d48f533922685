-- ===== src/Api/Plans/Repositories.antt =====
-- `PostgresPlanTierRepository` and `PostgresTenantUsageRepository`:
-- mikrom-api/src/infrastructure/db/postgres_plan_tier_repository.rs.
use mikrom.Prelude.{ℕ, suc, String, Bool, true, false, Option, none, some, List, ◌∷◌, ◌&&◌}
use mikrom.Prelude.Int.{ℤ, pos, add, negate, fits_i32, at_least_zero}
use mikrom.Api.Plans.{
  TierSlug, as_str, PlanTier, TenantUsage, integer_out_of_range, database, Db, Result, ok, err, M,
  pure, ◌>>=◌, ◌>>◌, or_row_not_found, update_usage, no_usage, usage_of, with_usage, set_plan,
  default_tier_of, joined_tier,
}

-- The message with which the n-th statement fails, if it does.
abbrev pub Faults : Type 0
Faults = ℕ → Option String

abbrev pub after : Db → Db
after db = record db { sent = suc db.sent }

-- Sums that are no INTEGER fail the statement.
abbrev pub checked : Bool → Db → Result Db
checked true db = ok db
checked false db = err integer_out_of_range

module _ (fault : Faults) where
  abbrev pub query : {A : Type 0} → (Db → Result A) → M A
  query f db = elim (fault db.sent) [
    | none ↦ (f db, after db)
    | some e ↦ (err (database e), after db)
  ]

  abbrev pub exec : (Db → Result Db) → M (Unit {0})
  exec f db = elim (fault db.sent) [
    | none ↦ elim (f db) [ ok new ↦ (ok tt, after new) | err e ↦ (err e, after db) ]
    | some e ↦ (err (database e), after db)
  ]

  abbrev pub get_default_tier : M PlanTier
  get_default_tier = query (λ (db : Db). or_row_not_found (default_tier_of db.plan_tiers))

  abbrev pub list_all : M (List PlanTier)
  list_all = query (λ (db : Db). ok db.plan_tiers)

  abbrev pub assign_to_tenant : String → TierSlug → M (Unit {0})
  assign_to_tenant tenant_id tier_slug = exec λ (db : Db).
      ok (record db { tenant_billing = set_plan tenant_id (as_str tier_slug) db.tenant_billing })

  unfoldable pub get_tenant_tier : String → M PlanTier
  get_tenant_tier tenant_id = do
    db_tier ← query (λ (db : Db). ok (joined_tier tenant_id db))
    elim db_tier [
      | some tier ↦ pure tier
      | none ↦ query (λ (db : Db). or_row_not_found (default_tier_of db.plan_tiers))
    ]

  unfoldable pub get_or_create : String → M TenantUsage
  get_or_create tenant_id = do
    usage ← query (λ (db : Db). ok (usage_of tenant_id db.tenant_usage))
    elim usage [
      | some u ↦ pure u
      | none ↦ do
        exec (λ (db : Db). ok (record db { tenant_usage = with_usage tenant_id db.tenant_usage }))
        query (λ (db : Db). or_row_not_found (usage_of tenant_id db.tenant_usage))
    ]

  -- `INSERT INTO tenant_usage … ON CONFLICT (tenant_id) DO UPDATE`: a missing row begins with zeros.
  abbrev pub upsert_usage :
      String → (TenantUsage → TenantUsage) → (TenantUsage → Bool) → M (Unit {0})
  upsert_usage tenant_id f fits = exec λ (db : Db). elim (usage_of tenant_id db.tenant_usage) [
    | none ↦
        checked (fits (f (no_usage tenant_id)))
          (record db { tenant_usage = f (no_usage tenant_id) ∷ db.tenant_usage })
    | some u ↦
        checked (fits (f u)) (record db { tenant_usage = update_usage tenant_id f db.tenant_usage })
  ]

  -- `UPDATE tenant_usage SET … WHERE tenant_id`
  abbrev pub change_usage :
      String → (TenantUsage → TenantUsage) → (TenantUsage → Bool) → M (Unit {0})
  change_usage tenant_id f fits = exec λ (db : Db). elim (usage_of tenant_id db.tenant_usage) [
    | none ↦ ok db
    | some u ↦
        checked (fits u) (record db { tenant_usage = update_usage tenant_id f db.tenant_usage })
  ]

  abbrev pub apps_added : ℤ → ℤ → ℤ → ℤ → TenantUsage → TenantUsage
  apps_added delta vcpus memory_mb storage_gb u = record u {
    apps_count = add u.apps_count delta;
    vcpus_total = add u.vcpus_total vcpus;
    memory_mb_total = add u.memory_mb_total memory_mb;
    storage_gb_total = add u.storage_gb_total storage_gb;
  }

  abbrev pub apps_fit : TenantUsage → Bool
  apps_fit u =
      fits_i32 u.apps_count
      && fits_i32 u.vcpus_total
      && fits_i32 u.memory_mb_total
      && fits_i32 u.storage_gb_total

  unfoldable pub increment_apps : String → ℤ → ℤ → ℤ → ℤ → M (Unit {0})
  increment_apps tenant_id delta vcpus memory_mb storage_gb =
      upsert_usage tenant_id (apps_added delta vcpus memory_mb storage_gb) apps_fit

  -- A difference of INTEGERs, and what `GREATEST(0, …)` makes of it.
  abbrev pub less : ℤ → ℤ → ℤ
  less a b = at_least_zero (add a (negate b))

  abbrev pub fits_less : ℤ → ℤ → Bool
  fits_less a b = fits_i32 (add a (negate b))

  abbrev pub apps_removed : ℤ → ℤ → ℤ → TenantUsage → TenantUsage
  apps_removed vcpus memory_mb storage_gb u = record u {
    apps_count = less u.apps_count (pos 1);
    vcpus_total = less u.vcpus_total vcpus;
    memory_mb_total = less u.memory_mb_total memory_mb;
    storage_gb_total = less u.storage_gb_total storage_gb;
  }

  unfoldable pub decrement_apps : String → ℤ → ℤ → ℤ → M (Unit {0})
  decrement_apps tenant_id vcpus memory_mb storage_gb =
      change_usage tenant_id (apps_removed vcpus memory_mb storage_gb) (λ (u : TenantUsage).
        fits_less u.apps_count (pos 1)
        && fits_less u.vcpus_total vcpus
        && fits_less u.memory_mb_total memory_mb
        && fits_less u.storage_gb_total storage_gb)

  unfoldable pub increment_databases : String → ℤ → M (Unit {0})
  increment_databases tenant_id delta =
      upsert_usage tenant_id
        (λ (u : TenantUsage). record u { databases_count = add u.databases_count delta })
        (λ (u : TenantUsage). fits_i32 u.databases_count)

  unfoldable pub decrement_databases : String → M (Unit {0})
  decrement_databases tenant_id =
      change_usage tenant_id
        (λ (u : TenantUsage). record u { databases_count = less u.databases_count (pos 1) })
        (λ (u : TenantUsage). fits_less u.databases_count (pos 1))

  unfoldable pub increment_volumes : String → ℤ → ℤ → M (Unit {0})
  increment_volumes tenant_id delta storage_gb =
      upsert_usage tenant_id
        (λ (u : TenantUsage). record u {
          volumes_count = add u.volumes_count delta;
          storage_gb_total = add u.storage_gb_total storage_gb;
        })
        (λ (u : TenantUsage). fits_i32 u.volumes_count && fits_i32 u.storage_gb_total)

  unfoldable pub decrement_volumes : String → ℤ → M (Unit {0})
  decrement_volumes tenant_id storage_gb =
      change_usage tenant_id
        (λ (u : TenantUsage). record u {
          volumes_count = less u.volumes_count (pos 1);
          storage_gb_total = less u.storage_gb_total storage_gb;
        })
        (λ (u : TenantUsage).
          fits_less u.volumes_count (pos 1) && fits_less u.storage_gb_total storage_gb)

  unfoldable pub increment_deployments : String → ℤ → M (Unit {0})
  increment_deployments tenant_id delta =
      upsert_usage tenant_id
        (λ (u : TenantUsage). record u { deployments_count = add u.deployments_count delta })
        (λ (u : TenantUsage). fits_i32 u.deployments_count)

  unfoldable pub decrement_deployments : String → M (Unit {0})
  decrement_deployments tenant_id =
      change_usage tenant_id
        (λ (u : TenantUsage). record u { deployments_count = less u.deployments_count (pos 1) })
        (λ (u : TenantUsage). fits_less u.deployments_count (pos 1))
