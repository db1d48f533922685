-- ===== src/Router/ControlPlane/Tests.antt =====
-- The theorems on the router's state and its control plane, at a small router.
use mathlib.Core.List.{reverse, reverse-cons}
use mikrom.Prelude.{
  Bool, ap, ◌∙◌, tally, tally-append, ◌≡◌, refl, String, true, false, none, some, List, [], ◌∷◌,
  inl, inr, same, strip_prefix, if◌then◌else◌, arith,
}
use mikrom.Prelude.Int.{pos}
use mikrom.Prelude.Maps.{get, insert}
use mikrom.Router.State.{Libraries, Disk, SerializableState, CacheFile}
use mikrom.Router.StateManager.{
  StateManager, new_manager, from_snapshot, update_route_targets, commit, persist_snapshot,
  update_state, replace_state, load_cached_state,
}
use mikrom.Router.StateManager.Register.{settle}
use mikrom.Router.StateManager.Updates.{
  Update, targets_updated, route, acme, certificate, route_item, held, offers, run, apply,
}
use mikrom.Router.StateManager.Refinement.{held-run}
use mikrom.Router.StateManager.Convergence.{Agreeing, run_unordered}
use mikrom.Router.StateManager.Invariant.{IsValid, run-IsValid}
use mikrom.Router.StateManager.Restart.{restart_held}
use mikrom.Router.ControlPlane.{apply_router_config_update, answer_update, store_routes}
use mikrom.Router.ControlPlane.Rows.{
  RouteRow, RouterConfigUpdate, replace_route_rows, inserted_rows, transaction_error, has_repeated,
}
use mikrom.Router.ControlPlane.Order.{SameTargets}
use mikrom.Router.ControlPlane.Sync.{
  ControlPlane, World, sync_full_state, load_routes, build_routes, build_route, with_upstream,
  group_rows, normalized_targets, normalize_target, any_tls, tls_alternative_cn_for_host,
}
use mikrom.Router.ControlPlane.Outcomes.{Unchanged, failed_update-Unchanged}
use mikrom.Router.ControlPlane.Resync.{
  updated, IsStored, acknowledged-IsStored, resync_agrees, resync_forgets_versions,
}
use mikrom.Router.ControlPlane.Reachable.{config_updated, started, stepped, Reachable-IsValid}

-- A balancer is its targets, and `bad` is no target.
abbrev lists : Libraries
lists = record {
  LoadBalancer = List String;
  X509 = String;
  PKey = String;
  try_from_iter = λ (ts : List String). elim ts [
    | [] ↦ inl "no target"
    | t ∷ rest ↦ if same t "bad" then inl "bad target" else inr (t ∷ rest)
  ];
  set_health_check = λ (lb : List String). lb;
  stack_from_pem = λ (pem : String). some (pem ∷ []);
  private_key_from_pem = λ (pem : String). some pem;
}

abbrev no_disk : Disk lists
no_disk = record {
  to_string_pretty = λ (s : SerializableState lists). none;
  from_str = λ (text : String). none;
  saves = false;
}

abbrev fresh : StateManager lists
fresh = new_manager lists no_disk CacheFile.absent

abbrev first_targets : Update
first_targets = targets_updated "app" ("[fd00::1]:80" ∷ []) (pos 1)

abbrev later_targets : Update
later_targets = targets_updated "app" ("[fd00::2]:80" ∷ []) (pos 2)

abbrev in_order : List (Disk lists × Update)
in_order = (no_disk, first_targets) ∷ (no_disk, later_targets) ∷ []

abbrev reordered : List (Disk lists × Update)
reordered = (no_disk, later_targets) ∷ (no_disk, first_targets) ∷ (no_disk, later_targets) ∷ []

held-run_example :
    held (route "app") (run in_order fresh)
    ≡ settle (offers lists (route "app") in_order) (held (route "app") fresh)
held-run_example = held-run in_order fresh (route "app")

in_order_agrees : Agreeing in_order
in_order_agrees u v m n (route k) t x y a b = ground arith
in_order_agrees u v m n (acme k) t x y a b = ground arith
in_order_agrees u v m n (certificate k) t x y a b = ground arith

run_unordered_example :
    held (route "app") (run in_order fresh) ≡ held (route "app") (run reordered fresh)
run_unordered_example =
    run_unordered in_order fresh (route "app") in_order_agrees reordered (λ u m. ground arith)
      (λ u m. ground arith)

-- What the state is once the first targets are there, and a disk that keeps it.
abbrev kept : SerializableState lists
kept = record {
  routes = ("app", "[fd00::1]:80" ∷ []) ∷ [];
  acme_tokens = [];
  certificates = [];
  route_versions = ("app", pos 1) ∷ [];
  acme_versions = [];
  certificate_versions = [];
}

abbrev disk : Disk lists
disk = record {
  to_string_pretty = λ (s : SerializableState lists). some "{}";
  from_str = λ (text : String). some kept;
  saves = true;
}

fresh-IsValid : IsValid fresh
unfolding new_manager run
fresh-IsValid = run-IsValid lists no_disk CacheFile.absent []

restart_held_example :
    held (route "app") (new_manager lists disk (apply disk first_targets fresh).cache)
    ≡ held (route "app") (apply disk first_targets fresh)
unfolding new_manager load_cached_state update_route_targets commit persist_snapshot from_snapshot
    get insert same
restart_held_example =
    restart_held disk first_targets fresh "{}" fresh-IsValid refl refl refl refl (route "app")

abbrev cp : ControlPlane
cp = record {
  decrypt = λ (text : String). inr text;
  selected = reverse;
  is_blank = λ (text : String). same text "";
  api_host = "api";
  api_upstream_url = "http://[fd00::9]:80";
  dashboard_host = "";
  dashboard_upstream_url = "";
}

abbrev empty_world : World lists
empty_world = record {
  state_manager = fresh;
  db = record { routes = []; tls_certificates = []; acme_challenges = [] };
  resync = false;
}

abbrev update : RouterConfigUpdate
update = record {
  hostname = "app";
  target_urls = "[fd00::1]:80" ∷ "[fd00::2]:80" ∷ [];
  timestamp = pos 1;
}

failed_update-Unchanged_example :
    Unchanged empty_world (apply_router_config_update lists disk (some "down") update empty_world).1
unfolding new_manager load_cached_state update_route_targets apply_router_config_update
    answer_update store_routes transaction_error has_repeated get same
failed_update-Unchanged_example =
    failed_update-Unchanged disk (some "down") update empty_world fresh-IsValid refl

acknowledged-IsStored_example :
    IsStored disk none update empty_world (updated disk none update empty_world)
unfolding new_manager load_cached_state update_route_targets apply_router_config_update
    answer_update store_routes transaction_error has_repeated get same
acknowledged-IsStored_example = acknowledged-IsStored disk none update empty_world refl refl

tally-reverse : (p : RouteRow → Bool) (rows : List RouteRow) → tally p (reverse rows) ≡ tally p rows
tally-reverse p [] = refl
tally-reverse p (r ∷ rows) =
    ap (tally p) (reverse-cons r rows)
    ∙ tally-append p (reverse rows) (r ∷ [])
    ∙ (ground (arith, tally-reverse p rows))

resync_agrees_example :
    SameTargets
      (route_item (
        get "app"
          (sync_full_state lists cp disk none
            (updated disk none update empty_world)).1.state_manager.state.routes))
      (route_item (get "app" (updated disk none update empty_world).state_manager.state.routes))
unfolding new_manager load_cached_state update_route_targets apply_router_config_update
    answer_update store_routes transaction_error has_repeated get same insert sync_full_state
    load_routes build_routes build_route with_upstream group_rows normalized_targets
    normalize_target strip_prefix replace_route_rows inserted_rows update_state replace_state commit
    any_tls tls_alternative_cn_for_host
resync_agrees_example =
    resync_agrees disk none update empty_world refl refl cp disk
      (λ (rows : List RouteRow) (p : RouteRow → Bool). tally-reverse p rows) (refl, (refl, tt))
      (record { other_than_api = refl; other_than_dashboard = refl }) refl

abbrev synced_world : World lists
synced_world = (sync_full_state lists cp disk none (updated disk none update empty_world)).1

abbrev older : RouterConfigUpdate
older = record { hostname = "app"; target_urls = "[fd00::3]:80" ∷ []; timestamp = pos 0 }

resync_forgets_versions_example :
    IsStored disk none older synced_world (updated disk none older synced_world)
unfolding new_manager load_cached_state update_route_targets apply_router_config_update
    answer_update store_routes transaction_error has_repeated get same insert sync_full_state
    load_routes build_routes build_route with_upstream group_rows normalized_targets
    normalize_target strip_prefix replace_route_rows inserted_rows update_state replace_state commit
    any_tls tls_alternative_cn_for_host
resync_forgets_versions_example =
    resync_forgets_versions cp disk (updated disk none update empty_world) refl none older refl

Reachable-IsValid_example :
    IsValid (apply_router_config_update lists disk none update empty_world).1.state_manager
Reachable-IsValid_example =
    Reachable-IsValid (apply_router_config_update lists disk none update empty_world).1 (
      stepped empty_world _ (started no_disk CacheFile.absent empty_world.db)
        (config_updated disk none update))
