-- ===== src/Api/RateLimit.antt =====
-- The configuration of `RateLimiter`: mikrom-api/src/infrastructure/http/rate_limit.rs.
pub mod Buckets
pub mod Classify
pub mod Coverage
pub mod Isolation
pub mod Policies
use mikrom.Prelude.{
  ℕ, String, Bool, true, false, Option, none, some, ◌⊎◌, inl, inr, if◌then◌else◌, ltb, same,
  unwrap_or,
}

-- Requests per minute, for each kind of request.
pub record RateLimitProfile : Type 0 where
  pub public_rpm : ℕ
  pub rate_limit_auth_login_rpm : ℕ
  pub rate_limit_auth_register_rpm : ℕ
  pub rate_limit_github_install_rpm : ℕ
  pub rate_limit_apps_create_rpm : ℕ
  pub rate_limit_apps_deploy_rpm : ℕ
  pub rate_limit_webhooks_github_generic_rpm : ℕ
  pub rate_limit_webhooks_github_named_rpm : ℕ
  pub authenticated_read_rpm : ℕ
  pub authenticated_write_rpm : ℕ
  pub authenticated_stream_rpm : ℕ

-- Times are in seconds.
pub record RateLimitConfig : Type 0 where
  pub public_rpm : ℕ
  pub rate_limit_auth_login_rpm : ℕ
  pub rate_limit_auth_register_rpm : ℕ
  pub rate_limit_github_install_rpm : ℕ
  pub rate_limit_apps_create_rpm : ℕ
  pub rate_limit_apps_deploy_rpm : ℕ
  pub rate_limit_webhooks_github_generic_rpm : ℕ
  pub rate_limit_webhooks_github_named_rpm : ℕ
  pub authenticated_read_rpm : ℕ
  pub authenticated_write_rpm : ℕ
  pub authenticated_stream_rpm : ℕ
  pub entry_ttl : ℕ
  pub cleanup_interval : ℕ
  pub trust_proxy_headers : Bool

-- What `from_api_config` reads of the API's configuration.
pub record ApiConfig : Type 0 where
  pub deployment_env : String
  pub rate_limit_public_rpm : Option ℕ
  pub rate_limit_auth_login_rpm : Option ℕ
  pub rate_limit_auth_register_rpm : Option ℕ
  pub rate_limit_github_install_rpm : Option ℕ
  pub rate_limit_apps_create_rpm : Option ℕ
  pub rate_limit_apps_deploy_rpm : Option ℕ
  pub rate_limit_webhooks_github_generic_rpm : Option ℕ
  pub rate_limit_webhooks_github_named_rpm : Option ℕ
  pub rate_limit_authenticated_read_rpm : Option ℕ
  pub rate_limit_authenticated_write_rpm : Option ℕ
  pub rate_limit_authenticated_stream_rpm : Option ℕ
  pub rate_limit_entry_ttl_secs : ℕ
  pub rate_limit_cleanup_interval_secs : ℕ
  pub rate_limit_trust_proxy_headers : Bool

pub data DeploymentEnv : Type 0 where
  development staging production : DeploymentEnv

-- A success, or what the error names.
abbrev pub Checked : Type 0 → Type 0
Checked A = String ⊎ A

-- `?`
abbrev pub followed_by : {A : Type 0} → Checked (Unit {0}) → Checked A → Checked A
followed_by (inl e) r = inl e
followed_by (inr _) r = r

-- The `match` of `DeploymentEnv::parse`, on the trimmed text in lower case.
unfoldable pub parse_env : String → Checked DeploymentEnv
parse_env value =
    if same value "dev"
    then inr development
    else if same value "development"
    then inr development
    else if same value "local"
    then inr development
    else if same value "staging"
    then inr staging
    else if same value "stage"
    then inr staging
    else if same value "prod"
    then inr production
    else if same value "production"
    then inr production
    else inl value

-- `RateLimitProfile::for_env`
unfoldable pub for_env : DeploymentEnv → RateLimitProfile
for_env development = record {
  public_rpm = 300;
  rate_limit_auth_login_rpm = 120;
  rate_limit_auth_register_rpm = 60;
  rate_limit_github_install_rpm = 120;
  rate_limit_apps_create_rpm = 120;
  rate_limit_apps_deploy_rpm = 120;
  rate_limit_webhooks_github_generic_rpm = 240;
  rate_limit_webhooks_github_named_rpm = 240;
  authenticated_read_rpm = 1200;
  authenticated_write_rpm = 600;
  authenticated_stream_rpm = 120;
}
for_env staging = record {
  public_rpm = 120;
  rate_limit_auth_login_rpm = 20;
  rate_limit_auth_register_rpm = 20;
  rate_limit_github_install_rpm = 30;
  rate_limit_apps_create_rpm = 20;
  rate_limit_apps_deploy_rpm = 30;
  rate_limit_webhooks_github_generic_rpm = 30;
  rate_limit_webhooks_github_named_rpm = 60;
  authenticated_read_rpm = 600;
  authenticated_write_rpm = 240;
  authenticated_stream_rpm = 60;
}
for_env production = record {
  public_rpm = 60;
  rate_limit_auth_login_rpm = 10;
  rate_limit_auth_register_rpm = 10;
  rate_limit_github_install_rpm = 15;
  rate_limit_apps_create_rpm = 10;
  rate_limit_apps_deploy_rpm = 20;
  rate_limit_webhooks_github_generic_rpm = 20;
  rate_limit_webhooks_github_named_rpm = 30;
  authenticated_read_rpm = 300;
  authenticated_write_rpm = 120;
  authenticated_stream_rpm = 30;
}

-- `RateLimitConfig::from_profile`
unfoldable pub from_profile : DeploymentEnv → RateLimitConfig
from_profile env =
    let profile : RateLimitProfile = for_env env in
    record {
      public_rpm = profile.public_rpm;
      rate_limit_auth_login_rpm = profile.rate_limit_auth_login_rpm;
      rate_limit_auth_register_rpm = profile.rate_limit_auth_register_rpm;
      rate_limit_github_install_rpm = profile.rate_limit_github_install_rpm;
      rate_limit_apps_create_rpm = profile.rate_limit_apps_create_rpm;
      rate_limit_apps_deploy_rpm = profile.rate_limit_apps_deploy_rpm;
      rate_limit_webhooks_github_generic_rpm = profile.rate_limit_webhooks_github_generic_rpm;
      rate_limit_webhooks_github_named_rpm = profile.rate_limit_webhooks_github_named_rpm;
      authenticated_read_rpm = profile.authenticated_read_rpm;
      authenticated_write_rpm = profile.authenticated_write_rpm;
      authenticated_stream_rpm = profile.authenticated_stream_rpm;
      entry_ttl = 900;
      cleanup_interval = 60;
      trust_proxy_headers = false;
    }

abbrev pub ensure_positive : ℕ → String → Checked (Unit {0})
ensure_positive value field = if ltb 0 value then inr tt else inl field

-- `RateLimitConfig::validate`: the first setting that is zero is named.
unfoldable pub validate : RateLimitConfig → Checked (Unit {0})
validate c = followed_by (ensure_positive c.public_rpm "RATE_LIMIT_PUBLIC_RPM") (
    followed_by (ensure_positive c.rate_limit_auth_login_rpm "RATE_LIMIT_AUTH_LOGIN_RPM") (
      followed_by (ensure_positive c.rate_limit_auth_register_rpm "RATE_LIMIT_AUTH_REGISTER_RPM") (
        followed_by
          (ensure_positive c.rate_limit_github_install_rpm "RATE_LIMIT_GITHUB_INSTALL_RPM")
          (followed_by (ensure_positive c.rate_limit_apps_create_rpm "RATE_LIMIT_APPS_CREATE_RPM") (
            followed_by (ensure_positive c.rate_limit_apps_deploy_rpm "RATE_LIMIT_APPS_DEPLOY_RPM")
              (followed_by
                (ensure_positive c.rate_limit_webhooks_github_generic_rpm
                  "RATE_LIMIT_WEBHOOKS_GITHUB_GENERIC_RPM")
                (followed_by
                  (ensure_positive c.rate_limit_webhooks_github_named_rpm
                    "RATE_LIMIT_WEBHOOKS_GITHUB_NAMED_RPM")
                  (followed_by
                    (ensure_positive c.authenticated_read_rpm "RATE_LIMIT_AUTHENTICATED_READ_RPM")
                    (followed_by
                      (ensure_positive c.authenticated_write_rpm
                        "RATE_LIMIT_AUTHENTICATED_WRITE_RPM")
                      (followed_by
                        (ensure_positive c.authenticated_stream_rpm
                          "RATE_LIMIT_AUTHENTICATED_STREAM_RPM")
                        (followed_by (ensure_positive c.entry_ttl "RATE_LIMIT_ENTRY_TTL_SECS") (
                          ensure_positive c.cleanup_interval
                            "RATE_LIMIT_CLEANUP_INTERVAL_SECS"))))))))))))

-- The settings of `from_api_config` before they are validated.
unfoldable pub configured : ApiConfig → DeploymentEnv → RateLimitConfig
configured config env =
    let profile : RateLimitProfile = for_env env in
    record {
      public_rpm = unwrap_or config.rate_limit_public_rpm profile.public_rpm;
      rate_limit_auth_login_rpm =
          unwrap_or config.rate_limit_auth_login_rpm profile.rate_limit_auth_login_rpm;
      rate_limit_auth_register_rpm =
          unwrap_or config.rate_limit_auth_register_rpm profile.rate_limit_auth_register_rpm;
      rate_limit_github_install_rpm =
          unwrap_or config.rate_limit_github_install_rpm profile.rate_limit_github_install_rpm;
      rate_limit_apps_create_rpm =
          unwrap_or config.rate_limit_apps_create_rpm profile.rate_limit_apps_create_rpm;
      rate_limit_apps_deploy_rpm =
          unwrap_or config.rate_limit_apps_deploy_rpm profile.rate_limit_apps_deploy_rpm;
      rate_limit_webhooks_github_generic_rpm =
          unwrap_or config.rate_limit_webhooks_github_generic_rpm
            profile.rate_limit_webhooks_github_generic_rpm;
      rate_limit_webhooks_github_named_rpm =
          unwrap_or config.rate_limit_webhooks_github_named_rpm
            profile.rate_limit_webhooks_github_named_rpm;
      authenticated_read_rpm =
          unwrap_or config.rate_limit_authenticated_read_rpm profile.authenticated_read_rpm;
      authenticated_write_rpm =
          unwrap_or config.rate_limit_authenticated_write_rpm profile.authenticated_write_rpm;
      authenticated_stream_rpm =
          unwrap_or config.rate_limit_authenticated_stream_rpm profile.authenticated_stream_rpm;
      entry_ttl = config.rate_limit_entry_ttl_secs;
      cleanup_interval = config.rate_limit_cleanup_interval_secs;
      trust_proxy_headers = config.rate_limit_trust_proxy_headers;
    }

-- `RateLimitConfig::from_api_config`, with `trim` and `to_ascii_lowercase` in one function
unfoldable pub from_api_config : (String → String) → ApiConfig → Checked RateLimitConfig
from_api_config lowered config = elim (parse_env (lowered config.deployment_env)) [
  | inl e ↦ inl e
  | inr env ↦ followed_by (validate (configured config env)) (inr (configured config env))
]
