-- ===== src/Api/RateLimit/Policies.antt =====
-- What a validated configuration allows.
use mikrom.Prelude.{◌≡◌, refl, String, Bool, true, ◌⊎◌, inl, inr, ltb, unwrap_or, ◌&&◌, arith}
use mikrom.Api.RateLimit.{
  RateLimitConfig, ApiConfig, DeploymentEnv, validate, configured, from_api_config, parse_env,
  followed_by,
}
use mikrom.Api.RateLimit.Classify.{
  RouteTarget, RateLimitClass, public, authenticated_read, authenticated_write,
  authenticated_stream,
}
use mikrom.Api.RateLimit.Buckets.{target_rpm, route_specific_rpm, class_rpm}

-- Every setting is positive.
abbrev pub all_positive : RateLimitConfig → Bool
all_positive c =
    ltb 0 c.public_rpm
    && ltb 0 c.rate_limit_auth_login_rpm
    && ltb 0 c.rate_limit_auth_register_rpm
    && ltb 0 c.rate_limit_github_install_rpm
    && ltb 0 c.rate_limit_apps_create_rpm
    && ltb 0 c.rate_limit_apps_deploy_rpm
    && ltb 0 c.rate_limit_webhooks_github_generic_rpm
    && ltb 0 c.rate_limit_webhooks_github_named_rpm
    && ltb 0 c.authenticated_read_rpm
    && ltb 0 c.authenticated_write_rpm
    && ltb 0 c.authenticated_stream_rpm

validate-positive : (c : RateLimitConfig) → validate c ≡ inr tt → all_positive c ≡ true
unfolding validate
validate-positive c e = ground arith

target_rpm-class :
    (c : RateLimitConfig) (b : String) (k : RateLimitClass)
    → all_positive c ≡ true
    → ltb 0 (unwrap_or (route_specific_rpm c b) (class_rpm c k)) ≡ true
unfolding route_specific_rpm
target_rpm-class c b public h = ground arith
target_rpm-class c b authenticated_read h = ground arith
target_rpm-class c b authenticated_write h = ground arith
target_rpm-class c b authenticated_stream h = ground arith

-- With a configuration that the server accepts, no kind of request has a limit of zero requests per minute.
pub accepted_rpm_positive :
    (lowered : String → String) (config : ApiConfig) (c : RateLimitConfig) (t : RouteTarget)
    → from_api_config lowered config ≡ inr c
    → ltb 0 (target_rpm c t) ≡ true
unfolding target_rpm from_api_config
accepted_rpm_positive lowered config c t e =
    target_rpm-class c t.bucket t.class
      (validate-positive c (validated (parse_env (lowered config.deployment_env)) e))
  where
    validated :
        (p : String ⊎ DeploymentEnv)
        → (elim p as (λ _. String ⊎ RateLimitConfig) [
          | inl e ↦ inl e
          | inr env ↦ followed_by (validate (configured config env)) (inr (configured config env))
        ])
          ≡ inr c
        → validate c ≡ inr tt
    validated (inl x) q = absurd (cc)
    validated (inr env) q = checked (validate (configured config env)) refl q
      where
        checked :
            (v : String ⊎ Unit {0})
            → validate (configured config env) ≡ v
            → followed_by v (inr (configured config env)) ≡ inr c
            → validate c ≡ inr tt
        checked (inl x) h q = absurd (cc)
        checked (inr u) h q = ground (arith, h, q)
