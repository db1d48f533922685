-- ===== src/Router/Health.antt =====
-- `RouterHealth`: mikrom-router/src/domain/health.rs. Each method runs to its end before the next.
mod Readiness
mod Tests
use mikrom.Prelude.{
  ℕ, String, Bool, true, false, not, ◌&&◌, Option, none, some, if◌then◌else◌, is_some, ◌==◌,
}

pub data RouterHealthState : Type 0 where
  booting degraded ready shutting_down fatal : RouterHealthState

pub as_u8 : RouterHealthState → ℕ
as_u8 booting = 0
as_u8 degraded = 1
as_u8 ready = 2
as_u8 shutting_down = 3
as_u8 fatal = 4

pub from_u8 : ℕ → RouterHealthState
from_u8 value =
    if value == 1
    then degraded
    else if value == 2
    then ready
    else if value == 3
    then shutting_down
    else if value == 4
    then fatal
    else booting

pub is_live : RouterHealthState → Bool
is_live fatal = false
is_live shutting_down = false
is_live _ = true

pub is_ready : RouterHealthState → Bool
is_ready ready = true
is_ready _ = false

pub record RouterHealth : Type 0 where
  pub state : ℕ
  pub bootstrapped : Bool
  pub dependencies_ready : Bool
  pub control_plane_synced : Bool
  pub wireguard_ready : Bool
  pub upstream_ca_ready : Bool
  pub is_shutting_down : Bool
  pub startup_error : Option String

pub record HealthSnapshot : Type 0 where
  pub live : Bool
  pub is_serving : Bool
  pub state : RouterHealthState
  pub dependencies_ready : Bool
  pub control_plane_synced : Bool
  pub wireguard_ready : Bool
  pub upstream_ca_ready : Bool
  pub startup_error : Option String

pub new : RouterHealth
unfolding as_u8
new = record {
  state = as_u8 booting;
  bootstrapped = false;
  dependencies_ready = false;
  control_plane_synced = false;
  wireguard_ready = false;
  upstream_ca_ready = false;
  is_shutting_down = false;
  startup_error = none;
}

pub update_state : RouterHealth → RouterHealth
unfolding as_u8
update_state h =
    let state =
      if h.is_shutting_down
      then shutting_down
      else if not h.bootstrapped && is_some h.startup_error
      then fatal
      else if h.bootstrapped
          && (h.dependencies_ready
              && (h.control_plane_synced
                  && (h.wireguard_ready && (h.upstream_ca_ready && not (is_some h.startup_error)))))
      then ready
      else if h.bootstrapped && is_some h.startup_error
      then degraded
      else booting in
    record h { state = as_u8 state }

pub mark_bootstrapped : RouterHealth → RouterHealth
unfolding update_state
mark_bootstrapped h = update_state (record h { bootstrapped = true })

pub mark_dependencies_ready : RouterHealth → RouterHealth
unfolding update_state
mark_dependencies_ready h = update_state (record h { dependencies_ready = true })

pub mark_control_plane_synced : RouterHealth → RouterHealth
unfolding update_state
mark_control_plane_synced h = update_state (record h { control_plane_synced = true })

pub mark_wireguard_ready : RouterHealth → RouterHealth
unfolding update_state
mark_wireguard_ready h = update_state (record h { wireguard_ready = true })

pub mark_upstream_ca_ready : RouterHealth → RouterHealth
unfolding update_state
mark_upstream_ca_ready h = update_state (record h { upstream_ca_ready = true })

pub mark_shutting_down : RouterHealth → RouterHealth
unfolding update_state
mark_shutting_down h = update_state (record h { is_shutting_down = true })

pub set_startup_error : String → RouterHealth → RouterHealth
unfolding update_state
set_startup_error e h = update_state (record h { startup_error = some e })

pub clear_startup_error : RouterHealth → RouterHealth
unfolding update_state
clear_startup_error h = update_state (record h { startup_error = none })

pub snapshot : RouterHealth → HealthSnapshot × RouterHealth
unfolding update_state from_u8 is_live is_ready
snapshot h =
    let h' = update_state h in
    let state = from_u8 h'.state in
    (
      record {
        live = is_live state;
        is_serving = is_ready state;
        state = state;
        dependencies_ready = h'.dependencies_ready;
        control_plane_synced = h'.control_plane_synced;
        wireguard_ready = h'.wireguard_ready;
        upstream_ca_ready = h'.upstream_ca_ready;
        startup_error = h'.startup_error;
      },
      h',
    )

-- One call of a method that other parts of the router make.
pub data Step : RouterHealth → RouterHealth → Type 0 where
  bootstrap : (h : RouterHealth) → Step h (mark_bootstrapped h)
  find_dependencies : (h : RouterHealth) → Step h (mark_dependencies_ready h)
  sync_control_plane : (h : RouterHealth) → Step h (mark_control_plane_synced h)
  start_wireguard : (h : RouterHealth) → Step h (mark_wireguard_ready h)
  load_upstream_ca : (h : RouterHealth) → Step h (mark_upstream_ca_ready h)
  shut_down : (h : RouterHealth) → Step h (mark_shutting_down h)
  report_error : (e : String) (h : RouterHealth) → Step h (set_startup_error e h)
  clear_error : (h : RouterHealth) → Step h (clear_startup_error h)
  look : (h : RouterHealth) → Step h (snapshot h).1

-- Any number of calls, the last one outermost.
pub data Reaches : RouterHealth → RouterHealth → Type 0 where
  here : (h : RouterHealth) → Reaches h h
  then : (a b c : RouterHealth) → Reaches a b → Step b c → Reaches a c
