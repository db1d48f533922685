-- ===== src/Api/RateLimit/Coverage.antt =====
-- Which requests are classified, and a bucket that none of them gets.
use mikrom.Prelude.{
  ◌≡◌, refl, String, Bool, true, false, Option, none, some, [], ◌∷◌, not, ◌&&◌, same, is_some,
  arith,
}
use mikrom.Api.RateLimit.Classify.{
  Method, is_method, RouteTarget, path_has_prefix, classify_public, classify_account, classify_apps,
  classify_streams, classify_rest, classify_request, or_next,
}

is_some-or_next : (o : Option RouteTarget) (t : RouteTarget) → is_some (or_next o (some t)) ≡ true
is_some-or_next none t = refl
is_some-or_next (some u) t = refl

-- A request gets a bucket exactly when its method is not OPTIONS and its path begins with the segment `v1`.
pub classify_request_exact :
    (method : Method) (path : String)
    → is_some (classify_request method path)
      ≡ (not (is_method method Method.options) && path_has_prefix path ("v1" ∷ []))
unfolding classify_request
classify_request_exact method path =
    ground (arith, is_some-or_next (classify_streams method path) (classify_rest method))

-- The bucket is not that of the removal of a security group's rule.
abbrev other_bucket : Option RouteTarget → Bool
other_bucket none = true
other_bucket (some t) = not (same t.bucket "apps.security_groups.delete")

other_public : (path : String) → other_bucket (classify_public path) ≡ true
unfolding classify_public same
other_public path = ground arith

other_account : (m : Method) (path : String) → other_bucket (classify_account m path) ≡ true
unfolding classify_account same
other_account m path = ground arith

other_streams : (m : Method) (path : String) → other_bucket (classify_streams m path) ≡ true
unfolding classify_streams same
other_streams m path = ground arith

other_apps : (m : Method) (path : String) → other_bucket (classify_apps m path) ≡ true
unfolding classify_apps same
other_apps m path = ground arith

other_rest : (m : Method) → other_bucket (some (classify_rest m)) ≡ true
unfolding same
other_rest Method.options = refl
other_rest Method.get = refl
other_rest Method.post = refl
other_rest Method.put = refl
other_rest Method.delete = refl
other_rest Method.head = refl
other_rest Method.other_method = refl

other_next :
    (o p : Option RouteTarget)
    → other_bucket o ≡ true
    → other_bucket p ≡ true
    → other_bucket (or_next o p) ≡ true
other_next none p h k = k
other_next (some t) p h k = h

-- No request is counted in the bucket `apps.security_groups.delete`: the tests before its own take each one
-- that it is for.
pub rule_removal_unclassified :
    (method : Method) (path : String) (t : RouteTarget)
    → classify_request method path ≡ some t
    → same t.bucket "apps.security_groups.delete" ≡ false
unfolding classify_request
rule_removal_unclassified method path t e = ground (
  arith,
  e,
  other_next (classify_public path)
      (or_next (classify_account method path) (
        or_next (classify_apps method path)
          (or_next (classify_streams method path) (some (classify_rest method)))))
      (other_public path)
      (other_next (classify_account method path)
        (or_next (classify_apps method path)
          (or_next (classify_streams method path) (some (classify_rest method))))
        (other_account method path)
        (other_next (classify_apps method path)
          (or_next (classify_streams method path) (some (classify_rest method)))
          (other_apps method path)
          (other_next (classify_streams method path) (some (classify_rest method))
            (other_streams method path) (other_rest method)))),
)
