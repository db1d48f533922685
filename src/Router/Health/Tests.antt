-- ===== src/Router/Health/Tests.antt =====
-- The theorems on the router's health, at concrete states.
use mikrom.Prelude.{◌≡◌, refl, true, false}
use mikrom.Router.Health.{
  new, snapshot, shutting_down, mark_shutting_down, mark_bootstrapped, mark_wireguard_ready,
  set_startup_error, Reaches, here, then, start_wireguard, report_error, RouterHealth,
}
use mikrom.Router.Health.Readiness.{shutdown_is_final}

abbrev failing : RouterHealth
failing = set_startup_error "no network" new

-- Two calls after a shutdown, and after the start.
abbrev ending : RouterHealth
ending = mark_shutting_down new

abbrev started : RouterHealth
started = mark_bootstrapped new

later : (h : RouterHealth) → Reaches h (mark_wireguard_ready (set_startup_error "late" h))
later h =
    then h (set_startup_error "late" h) _ (then h h _ (here h) (report_error "late" h))
      (start_wireguard (set_startup_error "late" h))

ending_ends : ending.is_shutting_down ≡ true
unfolding mark_shutting_down
ending_ends = refl

shutdown_is_final_example :
    let b = mark_wireguard_ready (set_startup_error "late" ending) in
    ((snapshot b).0.state ≡ shutting_down)
    × ((snapshot b).0.live ≡ false)
    × ((snapshot b).0.is_serving ≡ false)
shutdown_is_final_example = shutdown_is_final ending _ (later ending) ending_ends

started_starts : started.bootstrapped ≡ true
unfolding mark_bootstrapped
started_starts = refl
