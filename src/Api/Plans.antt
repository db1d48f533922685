-- ===== src/Api/Plans.antt =====
-- The tiers that tenants subscribe to, what tenants use, and their tables: mikrom-api/src/domain/plan_tier.rs and
-- mikrom-api/src/infrastructure/db/postgres_plan_tier_repository.rs. A statement may fail, and then changes
-- nothing; PostgreSQL refuses a sum that is no INTEGER. Rows are as they are once converted, less the times
-- at which they were written.
pub mod Repositories
pub mod Rows
use mikrom.Prelude.{
  ℕ, suc, String, Bool, true, false, Option, none, some, List, [], ◌∷◌, ◌&&◌, if◌then◌else◌, same,
  find, is_some,
}
use mikrom.Prelude.Int.{ℤ, pos, negsuc, add, negate, fits_i32, at_least_zero}

pub data TierSlug : Type 0 where
  free hobby pro enterprise : TierSlug

-- `TierSlug::as_str`
unfoldable pub as_str : TierSlug → String
as_str free = "free"
as_str hobby = "hobby"
as_str pro = "pro"
as_str enterprise = "enterprise"

-- `TierSlug::from_slug`
unfoldable pub from_slug : String → Option TierSlug
from_slug s =
    if same s "free"
    then some free
    else if same s "hobby"
    then some hobby
    else if same s "pro"
    then some pro
    else if same s "enterprise"
    then some enterprise
    else none

pub record PlanLimits : Type 0 where
  pub max_apps : ℤ
  pub max_databases : ℤ
  pub max_volumes : ℤ
  pub max_vcpus_total : ℤ
  pub max_memory_mb_total : ℤ
  pub max_storage_gb_total : ℤ
  pub max_deployments_per_app : ℤ
  pub max_team_members : ℤ
  pub autoscaling_allowed : Bool
  pub custom_domains : Bool

-- `limits` is what `PlanLimits::from` copies out of the row.
pub record PlanTier : Type 0 where
  pub id : String
  pub polar_product_id : Option String
  pub tier_slug : TierSlug
  pub name : String
  pub limits : PlanLimits
  pub trial_days : ℤ
  pub is_default : Bool
  pub sort_order : ℤ

pub record TenantUsage : Type 0 where
  pub tenant_id : String
  pub apps_count : ℤ
  pub databases_count : ℤ
  pub volumes_count : ℤ
  pub vcpus_total : ℤ
  pub memory_mb_total : ℤ
  pub storage_gb_total : ℤ
  pub deployments_count : ℤ
  pub bandwidth_gb_billed : ℤ

-- What the statements read and write of `tenant_billing`.
pub record TenantBilling : Type 0 where
  pub tenant_id : String
  pub plan_name : String
  pub status : String

pub data EntitlementError : Type 0 where
  app_limit_reached database_limit_reached volume_limit_reached vcpu_limit_reached :
      ℤ → ℤ → EntitlementError
  memory_limit_reached storage_limit_reached deployment_limit_reached : ℤ → ℤ → EntitlementError
  team_member_limit_reached : ℤ → ℤ → EntitlementError
  autoscaling_not_allowed custom_domains_not_allowed : EntitlementError

-- The errors that these parts make; an entitlement error before its text is printed.
pub data DomainError : Type 0 where
  invalid_request : EntitlementError → DomainError
  row_not_found : DomainError
  integer_out_of_range : DomainError
  database : String → DomainError

pub record Db : Type 0 where
  pub tenants : List String
  pub plan_tiers : List PlanTier
  pub tenant_billing : List TenantBilling
  pub tenant_usage : List TenantUsage
  -- How many statements were sent.
  pub sent : ℕ

pub data Result (A : Type 0) : Type 0 where
  ok : A → Result A
  err : DomainError → Result A

abbrev pub M : Type 0 → Type 0
M A = Db → Result A × Db

module _ {A : Type 0} where
  abbrev pub pure : A → M A
  pure a db = (ok a, db)

  abbrev pub throw : DomainError → M A
  throw e db = (err e, db)

  -- The error as a value.
  abbrev pub attempt : M A → M (Result A)
  attempt m db = let (r, db2) = m db in (ok r, db2)

infixl 5 ◌>>=◌ ◌>>◌
abbrev pub ◌>>=◌ : {A B : Type 0} → M A → (A → M B) → M B
◌>>=◌ m f db = let (r, db2) = m db in elim r [ ok a ↦ f a db2 | err e ↦ (err e, db2) ]

abbrev pub ◌>>◌ : {A B : Type 0} → M A → M B → M B
m >> k = m >>= λ _. k

abbrev pub or_row_not_found : {A : Type 0} → Option A → Result A
or_row_not_found none = err row_not_found
or_row_not_found (some a) = ok a

-- The rows of a tenant that are written: none where it has none.
abbrev pub update_usage : String → (TenantUsage → TenantUsage) → List TenantUsage → List TenantUsage
update_usage k f [] = []
update_usage k f (u ∷ us) = if same u.tenant_id k then f u ∷ us else u ∷ update_usage k f us

abbrev pub no_usage : String → TenantUsage
no_usage k = record {
  tenant_id = k;
  apps_count = pos 0;
  databases_count = pos 0;
  volumes_count = pos 0;
  vcpus_total = pos 0;
  memory_mb_total = pos 0;
  storage_gb_total = pos 0;
  deployments_count = pos 0;
  bandwidth_gb_billed = pos 0;
}

abbrev pub usage_of : String → List TenantUsage → Option TenantUsage
usage_of k us = find (λ (u : TenantUsage). same u.tenant_id k) us

-- `INSERT INTO tenant_usage (tenant_id) … ON CONFLICT DO NOTHING`
abbrev pub with_usage : String → List TenantUsage → List TenantUsage
with_usage k us = if is_some (usage_of k us) then us else no_usage k ∷ us

abbrev pub billing_of : String → List TenantBilling → Option TenantBilling
billing_of k bs = find (λ (b : TenantBilling). same b.tenant_id k) bs

-- `INSERT INTO tenant_billing … ON CONFLICT (tenant_id) DO UPDATE SET plan_name`
unfoldable pub set_plan : String → String → List TenantBilling → List TenantBilling
set_plan k plan [] = record { tenant_id = k; plan_name = plan; status = "active" } ∷ []
set_plan k plan (b ∷ bs) =
    if same b.tenant_id k then record b { plan_name = plan } ∷ bs else b ∷ set_plan k plan bs

abbrev pub default_tier_of : List PlanTier → Option PlanTier
default_tier_of tiers = find (λ (t : PlanTier). t.is_default) tiers

abbrev pub by_slug : String → List PlanTier → Option PlanTier
by_slug s tiers = find (λ (t : PlanTier). same (as_str t.tier_slug) s) tiers

-- The row of the join of `tenant_billing` and `plan_tiers`.
abbrev pub joined_tier : String → Db → Option PlanTier
joined_tier k db = elim (billing_of k db.tenant_billing) [
  | none ↦ none
  | some b ↦ by_slug b.plan_name db.plan_tiers
]
