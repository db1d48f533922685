-- ===== src/Router/Proxy/Breaker.antt =====
-- The circuit breaker of the proxy: of mikrom-router/src/application/proxy/mod.rs, the parts of upstream_peer
-- and fail_to_connect that use `wake_up_failures`. Times are in nanoseconds; the host is the normalized one.
pub mod Sequential
use mikrom.Prelude.{
  ℕ, ◌+◌, ◌-◌, ◌^◌, min, String, Bool, true, false, Option, none, some, List, [], ◌∷◌, ◌&&◌,
  if◌then◌else◌, same, leb, ltb,
}
use mikrom.Prelude.Maps.{HashMap, get, insert, remove}

-- The count of failures of a host and the time of the last.
abbrev pub Failures : Type 0
Failures = HashMap (ℕ × ℕ)

-- The check at the start of `upstream_peer`
unfoldable pub is_open : ℕ → String → Failures → Bool
is_open now host m = elim (get host m) [
  | none ↦ false
  | some (count, last_failure) ↦ leb 3 count && ltb (now - last_failure) 60000000000
]

pub data Selection : Type 0 where
  breaker_open : Selection
  no_upstream : Selection
  peer : String → Selection

-- `upstream_peer`: `selected` is the address that its loop ends with, none where it ends with an error.
unfoldable pub upstream_peer : ℕ → String → Option String → Failures → Selection × Failures
upstream_peer now host selected m =
    if is_open now host m
    then (breaker_open, m)
    else (elim selected [ none ↦ (no_upstream, m) | some address ↦ (peer address, remove host m) ])

-- `saturating_add(1)` of a `u32`
abbrev pub saturating_inc : ℕ → ℕ
saturating_inc n = min (n + 1) (2 ^ 32 - 1)

unfoldable pub fail_to_connect : ℕ → String → Failures → Failures
fail_to_connect now host m =
    if same host ""
    then m
    else insert host
        (elim (get host m) [ none ↦ (1, now) | some (count, _) ↦ (saturating_inc count, now) ]) m

-- An attempt: when it is made, for which host, what is selected, and the time at which the connection fails,
-- where it does.
pub record Attempt : Type 0 where
  pub made_at : ℕ
  pub host : String
  pub selected : Option String
  pub failed_at : Option ℕ

-- The connection to what was selected: a failure is reported.
unfoldable pub connect : Attempt → Selection × Failures → Failures
connect a (peer address, m) = elim (a.failed_at) [ none ↦ m | some t ↦ fail_to_connect t a.host m ]
connect a (breaker_open, m) = m
connect a (no_upstream, m) = m

-- pingora selects a peer and connects to it.
unfoldable pub attempt : Attempt → Failures → Failures
attempt a m = connect a (upstream_peer a.made_at a.host a.selected m)

unfoldable pub attempts : List Attempt → Failures → Failures
attempts [] m = m
attempts (a ∷ rest) m = attempts rest (attempt a m)
