-- ===== src/Api/RateLimit/Isolation.antt =====
-- Whose bucket a request touches.
use mikrom.Prelude.{
  ℕ, ◌≡◌, refl, ap, unwrap_or, ◌∙◌, String, Bool, true, false, Option, none, some, [], ◌∷◌, ◌&&◌,
  same, eq_of_same, arith, inl, inr, Option-cases,
}
use mikrom.Api.RateLimit.{RateLimitConfig}
use mikrom.Api.RateLimit.Classify.{
  RouteTarget, RateLimitClass, public, authenticated_read, authenticated_write,
  authenticated_stream, classify_request,
}
use mikrom.Api.RateLimit.Buckets.{
  F64, BucketState, RateLimitIdentity, RateLimitKey, same_identity, same_key, Request, Services,
  Entries, bucket_of, put_bucket, user_of, derive_key, client_identity, check_bucket, evaluate,
  rate_limit_middleware, user_id, socket_addr, forwarded_ip, unknown, identity_for, from_rpm,
  target_rpm, new_bucket, refilled, spend,
}

eq_of_same_identity : (a b : RateLimitIdentity) → same_identity a b ≡ true → a ≡ b
eq_of_same_identity (socket_addr a) (socket_addr b) h = ap socket_addr (eq_of_same a b h)
eq_of_same_identity (forwarded_ip a) (forwarded_ip b) h = ap forwarded_ip (eq_of_same a b h)
eq_of_same_identity (user_id a) (user_id b) h = ap user_id (eq_of_same a b h)
eq_of_same_identity unknown unknown h = refl
eq_of_same_identity (socket_addr a) (forwarded_ip b) h = absurd (cc)
eq_of_same_identity (socket_addr a) (user_id b) h = absurd (cc)
eq_of_same_identity (socket_addr a) unknown h = absurd (cc)
eq_of_same_identity (forwarded_ip a) (socket_addr b) h = absurd (cc)
eq_of_same_identity (forwarded_ip a) (user_id b) h = absurd (cc)
eq_of_same_identity (forwarded_ip a) unknown h = absurd (cc)
eq_of_same_identity (user_id a) (socket_addr b) h = absurd (cc)
eq_of_same_identity (user_id a) (forwarded_ip b) h = absurd (cc)
eq_of_same_identity (user_id a) unknown h = absurd (cc)
eq_of_same_identity unknown (socket_addr b) h = absurd (cc)
eq_of_same_identity unknown (forwarded_ip b) h = absurd (cc)
eq_of_same_identity unknown (user_id b) h = absurd (cc)

eq_of_same_key : (a b : RateLimitKey) → same_key a b ≡ true → a ≡ b
unfolding same_key
eq_of_same_key a b h =
    ground (arith, eq_of_same a.bucket b.bucket, eq_of_same_identity a.identity b.identity)

bucket_of-put_other :
    (j k : RateLimitKey) (s : BucketState) (es : Entries)
    → same_key k j ≡ false
    → bucket_of j (put_bucket k s es) ≡ bucket_of j es
bucket_of-put_other j k s [] h = ground arith
bucket_of-put_other j k s ((i, t) ∷ es) h =
    ground (arith, bucket_of-put_other j k s es h, eq_of_same_key i k, eq_of_same_key i j)

module _ (f : F64) (services : Services) (c : RateLimitConfig) (made now system_now : ℕ)
    (r : Request) (entries : Entries) where
  -- The key of a bucket of a user.
  abbrev user_key : String → String → RateLimitKey
  user_key bucket user = record { bucket = bucket; identity = user_id user }

  -- A request is not a user's: it has no valid claims or token, or those of another.
  abbrev NotOf : String → Type 0
  NotOf user = (a : String) → user_of services r ≡ some a → same a user ≡ false

  user_of-claimed : user_of services (record r { claims = user_of services r }) ≡ user_of services r
  user_of-claimed = ground arith

  claimed_elsewhere :
      (bucket user : String) (t : RouteTarget)
      → NotOf user
      → same_key
          (derive_key services c (record r { claims = user_of services r }) t)
          (user_key bucket user)
        ≡ false
  unfolding same_key derive_key client_identity
  claimed_elsewhere bucket user t other = elim (Option-cases (user_of services r)) [
    | inl e ↦ by_class t.class (ground (arith, e))
    | inr (a, e) ↦ by_class t.class (ground (arith, e, other a e))
  ]
    where
      by_class :
          (k : RateLimitClass)
          → ((elim (user_of services (record r { claims = user_of services r })) as (λ _. Bool) [
            | none ↦ false
            | some a ↦ same a user
          ])
              ≡ false)
          → (same t.bucket bucket
              && same_identity
                  (identity_for services k c (record r { claims = user_of services r }))
                  (user_id user))
            ≡ false
      by_class public h = ground arith
      by_class authenticated_read h = ground arith
      by_class authenticated_write h = ground arith
      by_class authenticated_stream h = ground arith

  abbrev claimed : Request
  claimed = record r { claims = user_of services r }

  evaluated :
      (k : RateLimitKey) (o : Option RouteTarget)
      → classify_request r.method r.path ≡ o
      → ((t : RouteTarget) → same_key (derive_key services c claimed t) k ≡ false)
      → bucket_of k (evaluate f services c made now system_now claimed entries).1
        ≡ bucket_of k entries
  unfolding evaluate check_bucket
  evaluated k none e h = ground (arith, e)
  evaluated k (some t) e h =
      let p = from_rpm f (target_rpm c t) in
      let key : RateLimitKey = derive_key services c claimed t in
      let s : BucketState =
        (spend f system_now p
          (refilled f now p (unwrap_or (bucket_of key entries) (new_bucket f made p)))).1 in
      ground (arith, e, bucket_of-put_other k key s entries (h t))

  answered :
      (rate_limit_middleware f services c made now system_now r entries).1
      ≡ (evaluate f services c made now system_now claimed entries).1
  unfolding rate_limit_middleware
  answered = ground arith

  -- A request that is not a user's leaves every bucket of that user as it was, whatever its path, its method,
  -- its address and its forwarding headers.
  pub other_users_untouched :
      (bucket user : String)
      → NotOf user
      → bucket_of
          (user_key bucket user)
          (rate_limit_middleware f services c made now system_now r entries).1
        ≡ bucket_of (user_key bucket user) entries
  other_users_untouched bucket user other =
      ap (bucket_of (user_key bucket user)) answered
      ∙ evaluated (user_key bucket user) (classify_request r.method r.path) refl
          (λ t. claimed_elsewhere bucket user t other)
