-- ===== src/Api/Entitlements.antt =====
-- `EntitlementService`: mikrom-api/src/application/entitlements.rs.
pub mod Counting
pub mod Limits
pub mod Startup
use mikrom.Prelude.{
  ℕ, String, Bool, true, false, Option, none, some, List, [], ◌∷◌, not, length, if◌then◌else◌,
}
use mikrom.Prelude.Int.{ℤ, pos, leqb, add, wrap_i32}
use mikrom.Api.Plans.{
  PlanLimits, PlanTier, TenantUsage, EntitlementError, app_limit_reached, database_limit_reached,
  volume_limit_reached, vcpu_limit_reached, memory_limit_reached, storage_limit_reached,
  deployment_limit_reached, team_member_limit_reached, autoscaling_not_allowed,
  custom_domains_not_allowed, DomainError, invalid_request, Db, Result, ok, err, M, pure, throw,
  attempt, ◌>>=◌, ◌>>◌,
}
use mikrom.Api.Plans.Repositories.{
  Faults, after, get_default_tier, list_all, assign_to_tenant, get_tenant_tier, get_or_create,
}

pub data EntitlementCheck : Type 0 where
  -- vcpus, memory_mb, storage_gb, autoscaling
  create_app : ℤ → ℤ → ℤ → Bool → EntitlementCheck
  create_deployment create_database : EntitlementCheck
  create_volume : ℤ → EntitlementCheck
  enable_autoscaling custom_domains add_team_member : EntitlementCheck

-- `a + b` on i32
abbrev pub plus : ℤ → ℤ → ℤ
plus a b = wrap_i32 (add a b)

abbrev pub check_limit : ℤ → ℤ → (ℤ → ℤ → EntitlementError) → M (Unit {0})
check_limit current max error_fn =
    if not (leqb current max) then throw (invalid_request (error_fn current max)) else pure tt

module _ (fault : Faults) where
  -- The `match` of `check_entitlement`.
  unfoldable pub check_against : PlanLimits → TenantUsage → EntitlementCheck → M (Unit {0})
  check_against limits usage (create_app vcpus memory_mb storage_gb autoscaling) = do
    check_limit (plus usage.apps_count (pos 1)) limits.max_apps app_limit_reached
    check_limit (plus usage.vcpus_total vcpus) limits.max_vcpus_total vcpu_limit_reached
    check_limit (plus usage.memory_mb_total memory_mb) limits.max_memory_mb_total
        memory_limit_reached
    check_limit (plus usage.storage_gb_total storage_gb) limits.max_storage_gb_total
        storage_limit_reached
  check_against limits usage create_deployment =
      check_limit (plus usage.deployments_count (pos 1)) limits.max_deployments_per_app
        deployment_limit_reached
  check_against limits usage create_database =
      check_limit (plus usage.databases_count (pos 1)) limits.max_databases database_limit_reached
  check_against limits usage (create_volume size_gb) = do
    check_limit (plus usage.volumes_count (pos 1)) limits.max_volumes volume_limit_reached
    check_limit (plus usage.storage_gb_total size_gb) limits.max_storage_gb_total
        storage_limit_reached
  check_against limits usage enable_autoscaling =
      if not limits.autoscaling_allowed
      then throw (invalid_request autoscaling_not_allowed)
      else pure tt
  check_against limits usage custom_domains =
      if not limits.custom_domains
      then throw (invalid_request custom_domains_not_allowed)
      else pure tt
  check_against limits usage add_team_member = do
    members ← list_all fault
    check_limit (plus (wrap_i32 (pos (length members))) (pos 1)) limits.max_team_members
        team_member_limit_reached

  unfoldable pub check_entitlement : String → EntitlementCheck → M (Unit {0})
  check_entitlement tenant_id check = do
    tier ← get_tenant_tier fault tenant_id
    usage ← get_or_create fault tenant_id
    check_against tier.limits usage check

  unfoldable pub get_tenant_limits : String → M (PlanLimits × TenantUsage)
  get_tenant_limits tenant_id = do
    tier ← get_tenant_tier fault tenant_id
    usage ← get_or_create fault tenant_id
    pure (tier.limits, usage)

  unfoldable pub ensure_tenant_has_tier : String → M (Unit {0})
  ensure_tenant_has_tier tenant_id = do
    default_tier ← get_default_tier fault
    assign_to_tenant fault tenant_id default_tier.tier_slug
    usage ← get_or_create fault tenant_id
    pure tt

  -- The loop of `migrate_existing_tenants`: an error is only logged.
  unfoldable pub ensure_all : List String → M (Unit {0})
  ensure_all [] = pure tt
  ensure_all (t ∷ ts) = do attempt (ensure_tenant_has_tier t); ensure_all ts

  -- `migrate_existing_tenants`, with `tenant_repo.list_all`, which the server runs when it starts.
  unfoldable pub migrate_existing_tenants : M (Unit {0})
  migrate_existing_tenants db = elim (fault db.sent) [
    | none ↦ ensure_all db.tenants (after db)
    | some e ↦ (err (DomainError.database e), after db)
  ]
