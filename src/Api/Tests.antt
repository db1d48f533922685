-- ===== src/Api/Tests.antt =====
-- The theorems on plans and on the rate limiter, at a small database and a small configuration.
use mikrom.Prelude.{
  ℕ, ◌≡◌, ◌+◌, ◌-◌, ◌*◌, ◌/◌, min, leb, refl, ap, subst, unwrap_or, String, Bool, true, false,
  Option, none, some, [], ◌∷◌, inl, inr, not, ◌&&◌, if◌then◌else◌, same, ltb, is_some,
}
use mikrom.Prelude.Chars.{chars, of_chars}
use mikrom.Prelude.Int.{pos, leqb}
use mikrom.Api.Plans.{
  TierSlug, free, pro, as_str, from_slug, PlanLimits, PlanTier, TenantUsage, Db, ok,
}
use mikrom.Api.Plans.Repositories.{
  Faults, increment_apps, increment_databases, decrement_databases, increment_volumes,
  decrement_volumes, increment_deployments, decrement_deployments, get_tenant_tier, get_or_create,
}
use mikrom.Api.Entitlements.{
  check_entitlement, check_against, migrate_existing_tenants, get_tenant_limits,
}
use mikrom.Api.Entitlements.Limits.{within, created_app-within}
use mikrom.Api.Entitlements.Startup.{plan_of, startup_resets_plans}
use mikrom.Api.RateLimit.{ApiConfig, development, for_env, from_profile, validate, configured}
use mikrom.Api.RateLimit.Classify.{
  Method, target, public, authenticated_write, classify_request, path_has_prefix, path_matches,
  split_path_segments, split_at_slashes, filled_segments, classify_public, classify_account,
  classify_apps, path_segment_count, ends_with, contains, is_method,
}
use mikrom.Api.RateLimit.Coverage.{classify_request_exact, rule_removal_unclassified}
use mikrom.Api.RateLimit.Buckets.{
  F64, Request, Services, user_id, bucket_of, rate_limit_middleware, cleanup_stale_entries,
}
use mikrom.Api.RateLimit.Isolation.{other_users_untouched}

abbrev small_limits : PlanLimits
small_limits = record {
  max_apps = pos 3;
  max_databases = pos 1;
  max_volumes = pos 2;
  max_vcpus_total = pos 4;
  max_memory_mb_total = pos 2048;
  max_storage_gb_total = pos 10;
  max_deployments_per_app = pos 5;
  max_team_members = pos 2;
  autoscaling_allowed = false;
  custom_domains = false;
}

abbrev tier_of : TierSlug → Bool → PlanTier
tier_of slug default = record {
  id = "id";
  polar_product_id = none;
  tier_slug = slug;
  name = "tier";
  limits = small_limits;
  trial_days = pos 0;
  is_default = default;
  sort_order = pos 0;
}

abbrev usage : TenantUsage
usage = record {
  tenant_id = "acme";
  apps_count = pos 1;
  databases_count = pos 0;
  volumes_count = pos 0;
  vcpus_total = pos 1;
  memory_mb_total = pos 512;
  storage_gb_total = pos 1;
  deployments_count = pos 0;
  bandwidth_gb_billed = pos 0;
}

abbrev db : Db
db = record {
  tenants = "acme" ∷ [];
  plan_tiers = tier_of free true ∷ tier_of pro false ∷ [];
  tenant_billing = record { tenant_id = "acme"; plan_name = "pro"; status = "active" } ∷ [];
  tenant_usage = usage ∷ [];
  sent = 0;
}

abbrev working : Faults
working n = none

created_app-within_example :
    within small_limits (record usage {
      apps_count = pos 2;
      vcpus_total = pos 2;
      memory_mb_total = pos 1024;
      storage_gb_total = pos 2;
    })
    ≡ true
unfolding check_entitlement check_against get_tenant_tier get_or_create increment_apps same as_str
    leqb
created_app-within_example =
    created_app-within working "acme" (pos 1) (pos 512) (pos 1) false db (tier_of pro false)
      (record usage {
        apps_count = pos 2;
        vcpus_total = pos 2;
        memory_mb_total = pos 1024;
        storage_gb_total = pos 2;
      })
      refl refl refl refl

startup_resets_plans_example :
    plan_of "acme" (migrate_existing_tenants working db).1.tenant_billing ≡ some "free"
unfolding as_str
startup_resets_plans_example =
    startup_resets_plans working (λ n. refl) (tier_of free true) db refl "acme" (inl refl)

-- The other counters, and a slug.
counters_run :
    (increment_deployments working "acme"
      (pos 1)
      (increment_volumes working "acme"
        (pos 1)
        (pos 2)
        (increment_databases working "acme" (pos 1) db).1).1).0
    ≡ ok tt
unfolding increment_databases increment_volumes increment_deployments same
counters_run = refl

counters_run_back :
    (decrement_deployments working "acme"
      (decrement_volumes working "acme" (pos 2) (decrement_databases working "acme" db).1).1).0
    ≡ ok tt
unfolding decrement_databases decrement_volumes decrement_deployments same
counters_run_back = refl

limits_read : (get_tenant_limits working "acme" db).0 ≡ ok (small_limits, usage)
unfolding get_tenant_limits get_tenant_tier get_or_create same as_str
limits_read = refl

from_slug-as_str : (s : TierSlug) → from_slug (as_str s) ≡ some s
unfolding from_slug as_str same
from_slug-as_str TierSlug.free = refl
from_slug-as_str TierSlug.hobby = refl
from_slug-as_str TierSlug.pro = refl
from_slug-as_str TierSlug.enterprise = refl

login_classified : classify_request Method.post "/v1/auth/login" ≡ some (target public "auth.login")
unfolding classify_request classify_public path_has_prefix path_matches split_path_segments
    split_at_slashes filled_segments chars of_chars same path_segment_count
login_classified = refl

rule_classified :
    classify_request Method.delete "/v1/apps/a/security-groups/1"
    ≡ some (target authenticated_write "apps.deployments.stop")
unfolding classify_request classify_public classify_account classify_apps path_has_prefix
    path_matches split_path_segments split_at_slashes filled_segments chars of_chars same
    path_segment_count ends_with contains
rule_classified = refl

classify_request_exact_example :
    is_some (classify_request Method.get "/health")
    ≡ (not (is_method Method.get Method.options) && path_has_prefix "/health" ("v1" ∷ []))
classify_request_exact_example = classify_request_exact Method.get "/health"

rule_removal_unclassified_example :
    same "apps.deployments.stop" "apps.security_groups.delete" ≡ false
rule_removal_unclassified_example =
    rule_removal_unclassified Method.delete "/v1/apps/a/security-groups/1"
      (target authenticated_write "apps.deployments.stop") rule_classified

abbrev settings : ApiConfig
settings = record {
  deployment_env = "dev";
  rate_limit_public_rpm = some 5;
  rate_limit_auth_login_rpm = none;
  rate_limit_auth_register_rpm = none;
  rate_limit_github_install_rpm = none;
  rate_limit_apps_create_rpm = none;
  rate_limit_apps_deploy_rpm = none;
  rate_limit_webhooks_github_generic_rpm = none;
  rate_limit_webhooks_github_named_rpm = none;
  rate_limit_authenticated_read_rpm = none;
  rate_limit_authenticated_write_rpm = none;
  rate_limit_authenticated_stream_rpm = none;
  rate_limit_entry_ttl_secs = 900;
  rate_limit_cleanup_interval_secs = 60;
  rate_limit_trust_proxy_headers = true;
}

profile_valid : validate (from_profile development) ≡ inr tt
unfolding validate from_profile for_env
profile_valid = refl

-- Whole numbers in place of floats.
abbrev whole : F64
whole = record {
  zero_lit = 0;
  one = 1;
  sixty = 60;
  epsilon = 0;
  of_u32 = λ (n : ℕ). n;
  as_secs = λ (n : ℕ). n / 1000000000;
  add = λ (a b : ℕ). a + b;
  sub = λ (a b : ℕ). a - b;
  mul = λ (a b : ℕ). a * b;
  div = λ (a b : ℕ). a / b;
  min = λ (a b : ℕ). min a b;
  max = λ (a b : ℕ). if ltb a b then b else a;
  floor = λ (n : ℕ). n;
  ceil = λ (n : ℕ). n;
  le = λ (a b : ℕ). leb a b;
  lt = λ (a b : ℕ). ltb a b;
  to_u32 = λ (n : ℕ). n;
  to_u64 = λ (n : ℕ). n;
  from_secs = λ (n : ℕ). n * 1000000000;
}

abbrev services : Services
services = record { verify_token = λ (t : String). some t; trim = λ (s : String). s }

abbrev of_alice : Request
of_alice = record {
  method = Method.get;
  path = "/v1/apps";
  claims = some "alice";
  token = none;
  x_forwarded_for = some "bob";
  x_real_ip = none;
  connect_info = some "[::1]:1";
}

nothing_stale : cleanup_stale_entries whole 5 (configured settings development) [] ≡ []
unfolding cleanup_stale_entries
nothing_stale = refl

bob_is_other : (a : String) → ◌≡◌ {A = Option String} (some "alice") (some a) → same a "bob" ≡ false
unfolding same
bob_is_other a e =
    subst (λ (z : String). same z "bob" ≡ false) (ap (λ (o : Option String). unwrap_or o "") e) refl

other_users_untouched_example :
    bucket_of
      (record { bucket = "apps.list"; identity = user_id "bob" })
      (rate_limit_middleware whole services (configured settings development) 0 0 0 of_alice []).1
    ≡ none
unfolding same
other_users_untouched_example =
    other_users_untouched whole services (configured settings development) 0 0 0 of_alice []
      "apps.list" "bob" bob_is_other
