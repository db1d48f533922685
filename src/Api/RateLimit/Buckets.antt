-- ===== src/Api/RateLimit/Buckets.antt =====
-- The keys and the buckets of `RateLimiter`: mikrom-api/src/infrastructure/http/rate_limit.rs. Times are in
-- nanoseconds, and floats are bit patterns with their arithmetic as a parameter.
use Prim.Native.String.{slice}
use text.Mathlib.Text.{find?}
use mikrom.Prelude.{
  ℕ, ◌+◌, ◌-◌, ◌*◌, String, Bool, true, false, Option, none, some, List, [], ◌∷◌, not, ◌&&◌,
  if◌then◌else◌, same, leb, ltb, unwrap_or,
}
use mikrom.Api.RateLimit.{RateLimitConfig}
use mikrom.Api.RateLimit.Classify.{
  Method, RateLimitClass, public, authenticated_read, authenticated_write, authenticated_stream,
  RouteTarget, classify_request,
}

-- `f64`.
pub record F64 : Type 0 where
  pub zero_lit : ℕ
  pub one : ℕ
  pub sixty : ℕ
  pub epsilon : ℕ
  pub of_u32 : ℕ → ℕ
  pub as_secs : ℕ → ℕ
  pub add : ℕ → ℕ → ℕ
  pub sub : ℕ → ℕ → ℕ
  pub mul : ℕ → ℕ → ℕ
  pub div : ℕ → ℕ → ℕ
  pub min : ℕ → ℕ → ℕ
  pub max : ℕ → ℕ → ℕ
  pub floor : ℕ → ℕ
  pub ceil : ℕ → ℕ
  pub le : ℕ → ℕ → Bool
  pub lt : ℕ → ℕ → Bool
  pub to_u32 : ℕ → ℕ
  pub to_u64 : ℕ → ℕ
  pub from_secs : ℕ → ℕ

pub record BucketPolicy : Type 0 where
  pub capacity : ℕ
  pub refill_per_second : ℕ

pub record BucketState : Type 0 where
  pub tokens : ℕ
  pub last_refill : ℕ
  pub last_seen : ℕ

pub record RateLimitOutcome : Type 0 where
  pub allowed : Bool
  pub retry_after : ℕ
  pub limit : ℕ
  pub remaining : ℕ
  pub reset_at : ℕ

pub data RateLimitIdentity : Type 0 where
  socket_addr forwarded_ip user_id : String → RateLimitIdentity
  unknown : RateLimitIdentity

pub record RateLimitKey : Type 0 where
  pub bucket : String
  pub identity : RateLimitIdentity

abbrev pub same_identity : RateLimitIdentity → RateLimitIdentity → Bool
same_identity (socket_addr a) (socket_addr b) = same a b
same_identity (forwarded_ip a) (forwarded_ip b) = same a b
same_identity (user_id a) (user_id b) = same a b
same_identity unknown unknown = true
same_identity _ _ = false

unfoldable pub same_key : RateLimitKey → RateLimitKey → Bool
same_key a b = same a.bucket b.bucket && same_identity a.identity b.identity

-- What the limiter reads of a request: `claims` are those that the middleware has put there, `token` is what
-- `extract_token_from_headers_and_uri` finds.
pub record Request : Type 0 where
  pub method : Method
  pub path : String
  pub claims : Option String
  pub token : Option String
  pub x_forwarded_for : Option String
  pub x_real_ip : Option String
  pub connect_info : Option String

-- `jwt::verify_token` under the secret, to the user, and `str::trim`.
pub record Services : Type 0 where
  pub verify_token : String → Option String
  pub trim : String → String

abbrev pub Entries : Type 0
Entries = List (RateLimitKey × BucketState)

-- `split(',').next()`
abbrev pub before_comma : String → String
before_comma s = elim (find? s ",") [ none ↦ s | some i ↦ slice s 0 i ]

abbrev pub filled : String → Option String
filled s = if same s "" then none else some s

-- `RateLimiter::route_specific_rpm`
unfoldable pub route_specific_rpm : RateLimitConfig → String → Option ℕ
route_specific_rpm c bucket =
    if same bucket "auth.login"
    then some c.rate_limit_auth_login_rpm
    else if same bucket "auth.captcha"
    then some c.rate_limit_auth_register_rpm
    else if same bucket "auth.register"
    then some c.rate_limit_auth_register_rpm
    else if same bucket "github.install"
    then some c.rate_limit_github_install_rpm
    else if same bucket "apps.create"
    then some c.rate_limit_apps_create_rpm
    else if same bucket "apps.deploy.trigger"
    then some c.rate_limit_apps_deploy_rpm
    else if same bucket "webhooks.github.generic"
    then some c.rate_limit_webhooks_github_generic_rpm
    else if same bucket "webhooks.github.named"
    then some c.rate_limit_webhooks_github_named_rpm
    else none

abbrev pub class_rpm : RateLimitConfig → RateLimitClass → ℕ
class_rpm c public = c.public_rpm
class_rpm c authenticated_read = c.authenticated_read_rpm
class_rpm c authenticated_write = c.authenticated_write_rpm
class_rpm c authenticated_stream = c.authenticated_stream_rpm

-- The requests per minute of `policy_for_target`
unfoldable pub target_rpm : RateLimitConfig → RouteTarget → ℕ
target_rpm c t = unwrap_or (route_specific_rpm c t.bucket) (class_rpm c t.class)

module _ (services : Services) where
  unfoldable pub forwarded_for_ip : Request → Option String
  forwarded_for_ip r = elim (r.x_forwarded_for) [
    | none ↦ real_ip
    | some value ↦ elim (filled (services.trim (before_comma value))) [
      | none ↦ real_ip
      | some ip ↦ some ip
    ]
  ]
    where
      real_ip : Option String
      real_ip = elim (r.x_real_ip) [ none ↦ none | some value ↦ filled (services.trim value) ]

  unfoldable pub client_identity : RateLimitConfig → Request → RateLimitIdentity
  client_identity c r = elim (if c.trust_proxy_headers then forwarded_for_ip r else none) [
    | some ip ↦ forwarded_ip ip
    | none ↦ elim (r.connect_info) [ none ↦ unknown | some addr ↦ socket_addr addr ]
  ]

  -- The user of a request, by its claims or else by its token.
  abbrev pub user_of : Request → Option String
  user_of r = elim (r.claims) [
    | some sub ↦ some sub
    | none ↦ elim (r.token) [ none ↦ none | some token ↦ services.verify_token token ]
  ]

  abbrev pub identity_for : RateLimitClass → RateLimitConfig → Request → RateLimitIdentity
  identity_for public c r = client_identity c r
  identity_for _ c r = elim (user_of r) [ some sub ↦ user_id sub | none ↦ client_identity c r ]

  unfoldable pub derive_key : RateLimitConfig → Request → RouteTarget → RateLimitKey
  derive_key c r t = record { bucket = t.bucket; identity = identity_for t.class c r }

-- `entry(key).or_insert_with`, and a write to the entry of a key
abbrev pub bucket_of : RateLimitKey → Entries → Option BucketState
bucket_of k [] = none
bucket_of k ((j, s) ∷ es) = if same_key j k then some s else bucket_of k es

abbrev pub put_bucket : RateLimitKey → BucketState → Entries → Entries
put_bucket k s [] = (k, s) ∷ []
put_bucket k s ((j, t) ∷ es) = if same_key j k then (j, s) ∷ es else (j, t) ∷ put_bucket k s es

module _ (f : F64) where
  -- `BucketPolicy::from_rpm`
  abbrev pub from_rpm : ℕ → BucketPolicy
  from_rpm rpm = record {
    capacity = f.of_u32 rpm;
    refill_per_second = f.div (f.of_u32 rpm) f.sixty;
  }

  abbrev pub new_bucket : ℕ → BucketPolicy → BucketState
  new_bucket now p = record { tokens = p.capacity; last_refill = now; last_seen = now }

  -- The refill at the start of `check_bucket`
  unfoldable pub refilled : ℕ → BucketPolicy → BucketState → BucketState
  refilled now p s =
      let refill : ℕ = f.mul (f.as_secs (now - s.last_refill)) p.refill_per_second in
      if f.lt f.zero_lit refill
      then record {
        tokens = f.min (f.add s.tokens refill) p.capacity;
        last_refill = now;
        last_seen = now;
      }
      else record s { last_seen = now }

  -- The time until the bucket is full.
  abbrev pub until_full : BucketPolicy → ℕ → ℕ
  until_full p tokens = f.div (f.max (f.sub p.capacity tokens) f.zero_lit) p.refill_per_second

  -- The rest of `check_bucket`, at a system time.
  unfoldable pub spend : ℕ → BucketPolicy → BucketState → RateLimitOutcome × BucketState
  spend system_now p s =
      if f.le f.one s.tokens
      then (
        record {
          allowed = true;
          retry_after = 0;
          limit = f.to_u32 p.capacity;
          remaining = f.to_u32 (f.floor (f.sub s.tokens f.one));
          reset_at =
              system_now
              + (if f.le p.refill_per_second f.epsilon
                  then 0
                  else f.from_secs (until_full p (f.sub s.tokens f.one)));
        },
        record s { tokens = f.sub s.tokens f.one },
      )
      else (
        record {
          allowed = false;
          retry_after = f.to_u64 (
              if f.le p.refill_per_second f.epsilon
              then f.one
              else f.max (f.ceil (f.div (f.sub f.one s.tokens) p.refill_per_second)) f.one);
          limit = f.to_u32 p.capacity;
          remaining = 0;
          reset_at =
              system_now
              + f.from_secs
                  (if f.le p.refill_per_second f.epsilon then f.one else until_full p s.tokens);
        },
        s,
      )

  -- `check_bucket`: a new bucket is made at one time and read at a later one.
  unfoldable pub check_bucket :
      ℕ → ℕ → ℕ → RateLimitKey → BucketPolicy → Entries → RateLimitOutcome × Entries
  check_bucket made now system_now key p entries =
      let r =
        spend system_now p
          (refilled now p (unwrap_or (bucket_of key entries) (new_bucket made p))) in
      (r.0, put_bucket key r.1 entries)

  -- `cleanup_stale_entries`, with the time to live in nanoseconds
  unfoldable pub cleanup_stale_entries : ℕ → RateLimitConfig → Entries → Entries
  cleanup_stale_entries now c [] = []
  cleanup_stale_entries now c ((k, s) ∷ es) =
      let rest = cleanup_stale_entries now c es in
      if leb (now - s.last_seen) (c.entry_ttl * 1000000000) then (k, s) ∷ rest else rest

  module _ (services : Services) (c : RateLimitConfig) where
    unfoldable pub evaluate : ℕ → ℕ → ℕ → Request → Entries → Option RateLimitOutcome × Entries
    evaluate made now system_now r entries = elim (classify_request r.method r.path) [
      | none ↦ (none, entries)
      | some t ↦
          let o =
            check_bucket made now system_now (derive_key services c r t) (from_rpm (target_rpm c t))
              entries in
          (some o.0, o.1)
    ]

    -- `rate_limit_middleware`: the request passes on, or is answered with 429 and this `Retry-After`.
    unfoldable pub rate_limit_middleware : ℕ → ℕ → ℕ → Request → Entries → Option ℕ × Entries
    rate_limit_middleware made now system_now request entries =
        let o =
          evaluate made now system_now (record request { claims = user_of services request })
            entries in
        elim (o.0) [
          | none ↦ (none, o.1)
          | some outcome ↦
              if not outcome.allowed
              then (some (if ltb outcome.retry_after 1 then 1 else outcome.retry_after), o.1)
              else (none, o.1)
        ]
