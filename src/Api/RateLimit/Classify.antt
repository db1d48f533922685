-- ===== src/Api/RateLimit/Classify.antt =====
-- `RateLimiter::classify_request`: mikrom-api/src/infrastructure/http/rate_limit.rs. The chain of its tests
-- is in four parts, tried in order.
use Prim.Native.Char.{Char, code}
use Prim.Native.String.{len, slice}
use text.Mathlib.Text.{find?}
use mikrom.Prelude.Chars.{chars, of_chars}
use mikrom.Prelude.{
  ℕ, ◌-◌, String, Bool, true, false, Option, none, some, List, [], ◌∷◌, not, ◌&&◌, ◌||◌,
  if◌then◌else◌, same, leb, ◌==◌, length, is_some,
}

pub data Method : Type 0 where
  options get post put delete head other_method : Method

abbrev pub is_method : Method → Method → Bool
is_method options options = true
is_method get get = true
is_method post post = true
is_method put put = true
is_method delete delete = true
is_method head head = true
is_method _ _ = false

pub data RateLimitClass : Type 0 where
  public authenticated_read authenticated_write authenticated_stream : RateLimitClass

pub record RouteTarget : Type 0 where
  pub class : RateLimitClass
  pub bucket : String

abbrev pub target : RateLimitClass → String → RouteTarget
target c b = record { class = c; bucket = b }

-- The characters between the slashes, where there are some.
abbrev pub joined : Char → List (List Char) → List (List Char)
joined c [] = (c ∷ []) ∷ []
joined c (w ∷ ws) = (c ∷ w) ∷ ws

unfoldable pub split_at_slashes : List Char → List (List Char)
split_at_slashes [] = [] ∷ []
split_at_slashes (c ∷ cs) =
    let rest = split_at_slashes cs in if code c == 47 then [] ∷ rest else joined c rest

unfoldable pub filled_segments : List (List Char) → List String
filled_segments [] = []
filled_segments ([] ∷ ws) = filled_segments ws
filled_segments ((c ∷ cs) ∷ ws) = of_chars (c ∷ cs) ∷ filled_segments ws

unfoldable pub split_path_segments : String → List String
split_path_segments path = filled_segments (split_at_slashes (chars path))

abbrev pub eq_segments : List String → List String → Bool
eq_segments [] [] = true
eq_segments (a ∷ as_) (b ∷ bs) = same a b && eq_segments as_ bs
eq_segments _ _ = false

abbrev pub starts_segments : List String → List String → Bool
starts_segments _ [] = true
starts_segments [] (b ∷ bs) = false
starts_segments (a ∷ as_) (b ∷ bs) = same a b && starts_segments as_ bs

unfoldable pub path_matches : String → List String → Bool
path_matches path expected = eq_segments (split_path_segments path) expected

unfoldable pub path_has_prefix : String → List String → Bool
path_has_prefix path expected = starts_segments (split_path_segments path) expected

unfoldable pub path_segment_count : String → ℕ
path_segment_count path = length (split_path_segments path)

-- `path.ends_with(t)` and `path.contains(t)`
unfoldable pub ends_with : String → String → Bool
ends_with s t = leb (len t) (len s) && same (slice s (len s - len t) (len s)) t

unfoldable pub contains : String → String → Bool
contains s t = is_some (find? s t)

unfoldable pub classify_public : String → Option RouteTarget
classify_public path =
    if path_matches path ("v1" ∷ "auth" ∷ "captcha" ∷ [])
    then some (target public "auth.captcha")
    else if path_matches path ("v1" ∷ "auth" ∷ "register" ∷ [])
    then some (target public "auth.register")
    else if path_matches path ("v1" ∷ "auth" ∷ "login" ∷ [])
    then some (target public "auth.login")
    else if path_matches path ("v1" ∷ "github" ∷ "callback" ∷ [])
    then some (target public "github.callback")
    else if path_matches path ("v1" ∷ "webhooks" ∷ "github" ∷ [])
    then some (target public "webhooks.github.generic")
    else if path_has_prefix path ("v1" ∷ "webhooks" ∷ "github" ∷ [])
        && (path_segment_count path == 4)
    then some (target public "webhooks.github.named")
    else none

unfoldable pub classify_account : Method → String → Option RouteTarget
classify_account method path =
    if path_matches path ("v1" ∷ "github" ∷ "install" ∷ [])
    then some (target authenticated_read "github.install")
    else if path_matches path ("v1" ∷ "github" ∷ "repos" ∷ [])
    then some (target authenticated_read "github.repos")
    else if path_matches path ("v1" ∷ "github" ∷ "accounts" ∷ [])
    then some (target authenticated_read "github.accounts")
    else if path_matches path ("v1" ∷ "auth" ∷ "me" ∷ []) && is_method method Method.get
    then some (target authenticated_read "auth.me.get")
    else if path_matches path ("v1" ∷ "auth" ∷ "me" ∷ []) && is_method method Method.put
    then some (target authenticated_write "auth.me.put")
    else if path_matches path ("v1" ∷ "apps" ∷ []) && is_method method Method.get
    then some (target authenticated_read "apps.list")
    else if path_matches path ("v1" ∷ "apps" ∷ []) && is_method method Method.post
    then some (target authenticated_write "apps.create")
    else if path_matches path ("v1" ∷ "deploy" ∷ []) && is_method method Method.post
    then some (target authenticated_write "deploy.global")
    else none

unfoldable pub classify_apps : Method → String → Option RouteTarget
classify_apps method path =
    if path_has_prefix path ("v1" ∷ "apps" ∷ [])
      && (path_segment_count path == 4)
      && is_method method Method.delete
    then some (target authenticated_write "apps.delete")
    else if path_has_prefix path ("v1" ∷ "apps" ∷ [])
        && (path_segment_count path == 4)
        && is_method method Method.get
        && ends_with path "/secret"
    then some (target authenticated_read "apps.secret.get")
    else if path_has_prefix path ("v1" ∷ "apps" ∷ [])
        && (path_segment_count path == 4)
        && is_method method Method.post
        && ends_with path "/deploy"
    then some (target authenticated_write "apps.deploy.trigger")
    else if path_has_prefix path ("v1" ∷ "apps" ∷ [])
        && (path_segment_count path == 4)
        && ends_with path "/deployments"
    then some (target authenticated_read "apps.deployments.list")
    else if path_has_prefix path ("v1" ∷ "apps" ∷ [])
        && (path_segment_count path == 5)
        && ends_with path "/deployments/stream"
    then some (target authenticated_stream "apps.deployments.stream")
    else if path_has_prefix path ("v1" ∷ "apps" ∷ [])
        && (path_segment_count path == 5)
        && ends_with path "/logs/stream"
    then some (target authenticated_stream "apps.logs.stream")
    else if path_has_prefix path ("v1" ∷ "apps" ∷ [])
        && (path_segment_count path == 5)
        && ends_with path "/metrics/stream"
    then some (target authenticated_stream "apps.metrics.stream")
    else if path_has_prefix path ("v1" ∷ "apps" ∷ [])
        && (path_segment_count path == 6)
        && ends_with path "/activate"
        && is_method method Method.post
    then some (target authenticated_write "apps.deployments.activate")
    else if path_has_prefix path ("v1" ∷ "apps" ∷ [])
        && (path_segment_count path == 5)
        && is_method method Method.get
    then some (target authenticated_read "apps.deployments.status")
    else if path_has_prefix path ("v1" ∷ "apps" ∷ [])
        && (path_segment_count path == 5)
        && is_method method Method.delete
    then some (target authenticated_write "apps.deployments.stop")
    else if path_has_prefix path ("v1" ∷ "apps" ∷ [])
        && (path_segment_count path == 6)
        && ends_with path "/logs"
        && is_method method Method.get
    then some (target authenticated_stream "apps.deployments.logs")
    else if path_has_prefix path ("v1" ∷ "apps" ∷ [])
        && (path_segment_count path == 6)
        && ends_with path "/pause"
        && is_method method Method.post
    then some (target authenticated_write "apps.deployments.pause")
    else if path_has_prefix path ("v1" ∷ "apps" ∷ [])
        && (path_segment_count path == 6)
        && ends_with path "/resume"
        && is_method method Method.post
    then some (target authenticated_write "apps.deployments.resume")
    else if path_has_prefix path ("v1" ∷ "apps" ∷ [])
        && (path_segment_count path == 6)
        && ends_with path "/delete"
        && is_method method Method.delete
    then some (target authenticated_write "apps.deployments.delete")
    else if path_has_prefix path ("v1" ∷ "apps" ∷ [])
        && (path_segment_count path == 4)
        && ends_with path "/security-groups"
        && is_method method Method.get
    then some (target authenticated_read "apps.security_groups.list")
    else if path_has_prefix path ("v1" ∷ "apps" ∷ [])
        && (path_segment_count path == 4)
        && ends_with path "/security-groups"
        && is_method method Method.post
    then some (target authenticated_write "apps.security_groups.create")
    else if path_has_prefix path ("v1" ∷ "apps" ∷ [])
        && (path_segment_count path == 5)
        && contains path "/security-groups/"
        && is_method method Method.delete
    then some (target authenticated_write "apps.security_groups.delete")
    else none

unfoldable pub classify_streams : Method → String → Option RouteTarget
classify_streams method path =
    if path_matches path ("v1" ∷ "networking" ∷ "mesh" ∷ []) && is_method method Method.get
    then some (target authenticated_read "networking.mesh")
    else if path_matches path ("v1" ∷ "networking" ∷ "mesh" ∷ "stream" ∷ [])
        && is_method method Method.get
    then some (target authenticated_stream "networking.mesh.stream")
    else if path_matches path ("v1" ∷ "deployments" ∷ "active" ∷ []) && is_method method Method.get
    then some (target authenticated_read "deployments.active")
    else if path_matches path ("v1" ∷ "deployments" ∷ "events" ∷ []) && is_method method Method.get
    then some (target authenticated_stream "deployments.events")
    else if path_matches path ("v1" ∷ "workspace" ∷ "events" ∷ []) && is_method method Method.get
    then some (target authenticated_stream "workspace.events")
    else none

-- The last of the tests, which leaves nothing unclassified.
abbrev pub classify_rest : Method → RouteTarget
classify_rest method =
    if is_method method Method.get || is_method method Method.head
    then target authenticated_read "unclassified.read"
    else target authenticated_write "unclassified.write"

abbrev pub or_next : Option RouteTarget → Option RouteTarget → Option RouteTarget
or_next none next = next
or_next (some t) next = some t

unfoldable pub classify_request : Method → String → Option RouteTarget
classify_request method path =
    if is_method method Method.options
    then none
    else if not (path_has_prefix path ("v1" ∷ []))
    then none
    else or_next (classify_public path) (
        or_next (classify_account method path) (
          or_next (classify_apps method path)
            (or_next (classify_streams method path) (some (classify_rest method)))))
