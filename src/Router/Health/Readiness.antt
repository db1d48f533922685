-- ===== src/Router/Health/Readiness.antt =====
-- What a snapshot tells of the router.
use mikrom.Prelude.{◌≡◌, ◌≢◌, ◌⊎◌, ◌↔◌, refl, true, false, none, arith, is_some}
use mikrom.Router.Health.{
  RouterHealthState, shutting_down, fatal, as_u8, from_u8, RouterHealth, new, Step, bootstrap,
  find_dependencies, sync_control_plane, start_wireguard, load_upstream_ca, shut_down, report_error,
  clear_error, look, Reaches, here, then, snapshot, update_state, mark_bootstrapped,
  mark_dependencies_ready, mark_control_plane_synced, mark_wireguard_ready, mark_upstream_ca_ready,
  mark_shutting_down, set_startup_error, clear_startup_error,
}

-- A state is read back as it was stored.
pub from_u8-as_u8 : (s : RouterHealthState) → from_u8 (as_u8 s) ≡ s
unfolding from_u8 as_u8
from_u8-as_u8 s = ground arith

-- Everything that traffic needs is there.
abbrev pub IsComplete : RouterHealth → Type 0
IsComplete h =
    (h.is_shutting_down ≡ false)
    × (h.bootstrapped ≡ true)
    × (h.dependencies_ready ≡ true)
    × (h.control_plane_synced ≡ true)
    × (h.wireguard_ready ≡ true)
    × (h.upstream_ca_ready ≡ true)
    × (h.startup_error ≡ none)

-- A snapshot says that the router is ready exactly when it is not shutting down, all five parts have
-- reported and no startup error stands; a ready router is live.
pub snapshot_tells_ready :
    (h : RouterHealth)
    → ((snapshot h).0.is_serving ≡ true ↔ IsComplete h)
      × ((snapshot h).0.is_serving ≡ true → (snapshot h).0.live ≡ true)
unfolding snapshot
snapshot_tells_ready h = ground arith

-- A snapshot says that the router is not live exactly when it is shutting down, or when there is a
-- startup error and it never finished its start.
pub snapshot_tells_dead :
    (h : RouterHealth)
    → (snapshot h).0.live ≡ false
      ↔ (h.is_shutting_down ≡ true) ⊎ ((h.bootstrapped ≡ false) × (is_some h.startup_error ≡ true))
unfolding snapshot
snapshot_tells_dead h = ground arith

-- What one call keeps: a shutdown, the end of the start, and that the stored state is up to date.
Step-keeps :
    (a b : RouterHealth)
    → Step a b
    → (a.is_shutting_down ≡ true → b.is_shutting_down ≡ true)
      × (a.bootstrapped ≡ true → b.bootstrapped ≡ true)
      × (b.state ≡ (update_state b).state)
unfolding snapshot mark_bootstrapped mark_dependencies_ready mark_control_plane_synced
    mark_wireguard_ready mark_upstream_ca_ready mark_shutting_down set_startup_error
    clear_startup_error
Step-keeps a _ (bootstrap _) = (λ h. h, λ _. refl, refl)
Step-keeps a _ (find_dependencies _) = (λ h. h, λ h. h, refl)
Step-keeps a _ (sync_control_plane _) = (λ h. h, λ h. h, refl)
Step-keeps a _ (start_wireguard _) = (λ h. h, λ h. h, refl)
Step-keeps a _ (load_upstream_ca _) = (λ h. h, λ h. h, refl)
Step-keeps a _ (shut_down _) = (λ _. refl, λ h. h, refl)
Step-keeps a _ (report_error e _) = (λ h. h, λ h. h, refl)
Step-keeps a _ (clear_error _) = (λ h. h, λ h. h, refl)
Step-keeps a _ (look _) = (λ h. h, λ h. h, refl)

shutdown_kept :
    (a b : RouterHealth) → Reaches a b → a.is_shutting_down ≡ true → b.is_shutting_down ≡ true
shutdown_kept a _ (here _) h = h
shutdown_kept a c (then _ b _ before s) h = (Step-keeps b c s).0 (shutdown_kept a b before h)

bootstrap_kept : (a b : RouterHealth) → Reaches a b → a.bootstrapped ≡ true → b.bootstrapped ≡ true
bootstrap_kept a _ (here _) h = h
bootstrap_kept a c (then _ b _ before s) h = (Step-keeps b c s).1 (bootstrap_kept a b before h)

-- Once a router is shutting down, every later snapshot, after whatever calls, says that it is
-- shutting down, and that it is neither live nor ready.
pub shutdown_is_final :
    (a b : RouterHealth)
    → Reaches a b
    → a.is_shutting_down ≡ true
    → ((snapshot b).0.state ≡ shutting_down)
      × ((snapshot b).0.live ≡ false)
      × ((snapshot b).0.is_serving ≡ false)
unfolding snapshot
shutdown_is_final a b r h = ground (arith, shutdown_kept a b r h)

-- Once a router has finished its start, no later snapshot, after whatever calls, says that it failed
-- fatally: unless it is shutting down it stays live, whatever errors are reported.
pub bootstrapped_stays_live :
    (a b : RouterHealth)
    → Reaches a b
    → a.bootstrapped ≡ true
    → ((snapshot b).0.state ≢ fatal) × (b.is_shutting_down ≡ false → (snapshot b).0.live ≡ true)
unfolding snapshot
bootstrapped_stays_live a b r h = ground (arith, bootstrap_kept a b r h)

-- In every state that a new router reaches, the stored state is the one that its flags call for, so
-- that looking at it changes nothing.
pub state_is_current : (h : RouterHealth) → Reaches new h → (snapshot h).1 ≡ h
unfolding snapshot new update_state
state_is_current _ (here _) = refl
state_is_current h (then _ b _ before s) = ground (arith, (Step-keeps b h s).2)
