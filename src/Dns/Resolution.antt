-- ===== src/Dns/Resolution.antt =====
-- How a query is answered: mikrom-dns/src/domain/rate_limit.rs and mikrom-dns/src/application/resolution.rs.
-- Times are in nanoseconds; a call takes the clock at each of its looks at it, which numbers tell apart. The lock of
-- `last_rate_limit_cleanup` is taken to be free.
pub mod Answers
use mikrom.Prelude.{
  ℕ, suc, ◌+◌, ◌-◌, ◌*◌, String, Bool, true, false, Option, none, some, List, [], ◌∷◌, not, ◌&&◌,
  if◌then◌else◌, ltb, leb, unwrap_or,
}
use mikrom.Prelude.Maps.{HashMap, get, insert}
use mikrom.Api.RateLimit.Buckets.{F64}
use mikrom.Dns.Zone.{
  MikromZone, system, network, user, external, from_name, extract_record_key, user_record_ttl,
}
use mikrom.Dns.Records.{DnsRecordStore, get_record}

pub record TokenBucket : Type 0 where
  pub tokens : ℕ
  pub last_update : ℕ

abbrev pub is_stale : ℕ → ℕ → TokenBucket → Bool
is_stale now stale_after b = leb stale_after (now - b.last_update)

abbrev pub rate_limit_entry_ttl : ℕ
rate_limit_entry_ttl = 900000000000

abbrev pub rate_limit_cleanup_interval : ℕ
rate_limit_cleanup_interval = 60000000000

-- The codes of hickory that are used.
pub data ResponseCode : Type 0 where
  no_error nx_domain serv_fail refused : ResponseCode

pub data ResolutionDecision : Type 0 where
  empty : ResponseCode → ResolutionDecision
  dropped : ResponseCode → String → ResolutionDecision
  forward_upstream : ResolutionDecision
  aaaa : ℕ → ℕ → ResolutionDecision

-- What `DnsResolutionService` is built with; an `IpNet` is its `contains`.
pub record Settings : Type 0 where
  pub upstream_dns : List String
  pub allowed_subnets : List (String → Bool)
  pub rate_limit_qps : ℕ
  pub rate_limit_burst : ℕ

-- Its state: the buckets, by the text of the address.
pub record Limiter : Type 0 where
  pub rate_limit_map : HashMap TokenBucket
  pub last_rate_limit_cleanup : ℕ

abbrev pub is_empty {ℓ} : {A : Type ℓ} → List A → Bool
is_empty [] = true
is_empty (x ∷ xs) = false

unfoldable pub any_contains : List (String → Bool) → String → Bool
any_contains [] source = false
any_contains (net ∷ nets) source = if net source then true else any_contains nets source

-- The first condition of `resolve`, negated.
unfoldable pub is_allowed : Settings → String → Bool
is_allowed c source =
    if is_empty c.allowed_subnets then true else any_contains c.allowed_subnets source

-- `retain(|_, bucket| !bucket.is_stale(..))`, with a look at the clock for every bucket
unfoldable pub retain_fresh : (ℕ → ℕ) → ℕ → HashMap TokenBucket → HashMap TokenBucket
retain_fresh clock n [] = []
retain_fresh clock n ((ip, b) ∷ es) =
    let rest = retain_fresh clock (suc n) es in
    if is_stale (clock n) rate_limit_entry_ttl b then rest else (ip, b) ∷ rest

unfoldable pub prune_rate_limit_entries : (ℕ → ℕ) → Limiter → Limiter
prune_rate_limit_entries clock l =
    if ltb (clock 2 - l.last_rate_limit_cleanup) rate_limit_cleanup_interval then l else record {
      rate_limit_map = retain_fresh clock 4 l.rate_limit_map;
      last_rate_limit_cleanup = clock 3;
    }

-- The last returns of the two halves of `resolve`: an external name goes upstream if there is a server for it.
unfoldable pub without_record : Settings → MikromZone → ResponseCode → ResolutionDecision
without_record c external code =
    if is_empty c.upstream_dns then empty nx_domain else forward_upstream
without_record c system code = empty code
without_record c network code = empty code
without_record c user code = empty code

-- What `resolve` answers once the query is let through and its zone is known.
unfoldable pub answer_in :
    (String → String) → Settings → DnsRecordStore → MikromZone → String → Bool → ResolutionDecision
answer_in lower c s zone name true = elim (extract_record_key lower name zone) [
  | none ↦ without_record c zone nx_domain
  | some key ↦ elim (get_record zone key s) [
    | none ↦ without_record c zone nx_domain
    | some address ↦ aaaa address user_record_ttl
  ]
]
answer_in lower c s zone name false = without_record c zone no_error

module _ (f : F64) where
  -- `TokenBucket::check`
  unfoldable pub check : ℕ → ℕ → ℕ → TokenBucket → Bool × TokenBucket
  check now rate burst b =
      let tokens = f.min (f.add b.tokens (f.mul (f.as_secs (now - b.last_update)) rate)) burst in
      if f.le f.one tokens
      then (true, record { tokens = f.sub tokens f.one; last_update = now })
      else (false, record { tokens = tokens; last_update = now })

  -- The bucket of a source, a new one where there is none, and its check.
  unfoldable pub check_source : Settings → (ℕ → ℕ) → String → Limiter → Bool × TokenBucket
  check_source c clock source l = check (clock 1) c.rate_limit_qps c.rate_limit_burst (
      unwrap_or (get source l.rate_limit_map)
        (record { tokens = c.rate_limit_qps; last_update = clock 0 }))

  -- With the lowering of names.
  unfoldable pub resolve :
      (String → String)
      → Settings
      → DnsRecordStore
      → (ℕ → ℕ)
      → String
      → String
      → Bool
      → Limiter
      → ResolutionDecision × Limiter
  resolve lower c s clock source name is_aaaa l =
      if not (is_allowed c source)
      then (dropped refused "acl", l)
      else (let (passed, bucket) = check_source c clock source l in
          let checked : Limiter = record l {
            rate_limit_map = insert source bucket l.rate_limit_map;
          } in
          if passed
          then (
            answer_in lower c s (from_name lower name) name is_aaaa,
            prune_rate_limit_entries clock checked,
          )
          else (dropped serv_fail "rate_limit", checked))
