-- ===== src/Router/Traffic.antt =====
-- `RouterTrafficPublisher`: mikrom-router/src/application/traffic/mod.rs.
mod Spacing
mod Tests
use mikrom.Prelude.{
  ℕ, ◌+◌, String, Bool, Option, none, some, List, [], ◌∷◌, if◌then◌else◌, same, ltb,
}

pub record RouterTrafficEvent : Type 0 where
  pub hostname : String
  pub router_id : String
  pub timestamp : ℕ

pub record RouterTrafficPublisher : Type 0 where
  pub router_id : String
  -- What went into the channel, the newest event first.
  pub sent : List RouterTrafficEvent
  pub last_sent : List (String × ℕ)

-- `RouterTrafficPublisher::new`
abbrev pub new_publisher : String → RouterTrafficPublisher
new_publisher id = record { router_id = id; sent = []; last_sent = [] }

abbrev pub last_of : String → List (String × ℕ) → Option ℕ
last_of k [] = none
last_of k ((h, t) ∷ entries) = if same h k then some t else last_of k entries

abbrev pub insert : String → ℕ → List (String × ℕ) → List (String × ℕ)
insert k t [] = (k, t) ∷ []
insert k t ((h, s) ∷ entries) = if same h k then (h, t) ∷ entries else (h, s) ∷ insert k t entries

-- `now - last < 30`
abbrev pub is_recent : Option ℕ → ℕ → Bool
is_recent none now = Bool.false
is_recent (some last) now = ltb now (last + 30)

-- `record` at a time; the channel has room or not.
pub record_traffic : Bool → String → ℕ → RouterTrafficPublisher → RouterTrafficPublisher
record_traffic has_room hostname now p =
    if is_recent (last_of hostname p.last_sent) now
    then p
    else if has_room
    then record p {
      sent = record { hostname = hostname; router_id = p.router_id; timestamp = now } ∷ p.sent;
      last_sent = insert hostname now p.last_sent;
    }
    else p

-- A run of `record`, the calls in order: whether the channel had room, the host and the time.
pub record_all : List (Bool × String × ℕ) → RouterTrafficPublisher → RouterTrafficPublisher
unfolding record_traffic
record_all [] p = p
record_all ((has_room, hostname, now) ∷ calls) p =
    record_all calls (record_traffic has_room hostname now p)
