-- ===== src/Router/Traffic/Spacing.antt =====
-- A host's events are spaced.
use mikrom.Prelude.{
  ℕ, ◌+◌, ◌≤◌, String, Bool, ◌≡◌, refl, true, false, Option, none, some, List, [], ◌∷◌, same,
  same_refl, eq_of_same, arith, Bool-cases, if◌then◌else◌, inl, inr,
}
use mikrom.Router.Traffic.{
  RouterTrafficEvent, RouterTrafficPublisher, last_of, insert, is_recent, new_publisher,
  record_traffic, record_all,
}

-- Events of one host are thirty seconds apart at least.
abbrev pub Apart : RouterTrafficEvent → List RouterTrafficEvent → Type 0
Apart e [] = Unit
Apart e (d ∷ ds) = (same d.hostname e.hostname ≡ true → d.timestamp + 30 ≤ e.timestamp) × Apart e ds

abbrev pub Spaced : List RouterTrafficEvent → Type 0
Spaced [] = Unit
Spaced (e ∷ es) = Apart e es × Spaced es

-- The last time noted for a host, if any, bounds its events; without one there are none.
abbrev Bounded : String → Option ℕ → List RouterTrafficEvent → Type 0
Bounded host o [] = Unit
Bounded host none (e ∷ es) = (same e.hostname host ≡ false) × Bounded host none es
Bounded host (some t) (e ∷ es) =
    (same e.hostname host ≡ true → e.timestamp ≤ t) × Bounded host (some t) es

Tracked : RouterTrafficPublisher → Type 0
Tracked p = (host : String) → Bounded host (last_of host p.last_sent) p.sent

last_of-insert_self :
    (k : String) (t : ℕ) (es : List (String × ℕ)) → last_of k (insert k t es) ≡ some t
last_of-insert_self k t [] = ground (arith, same_refl k)
last_of-insert_self k t ((h, s) ∷ es) = ground (arith, last_of-insert_self k t es)

last_of-insert_ne :
    (k h : String) (t : ℕ) (es : List (String × ℕ))
    → same h k ≡ false
    → last_of k (insert h t es) ≡ last_of k es
last_of-insert_ne k h t [] ne = ground arith
last_of-insert_ne k h t ((g, s) ∷ es) ne =
    ground (arith, eq_of_same g h, eq_of_same g k, last_of-insert_ne k h t es)

later-Apart :
    (e : RouterTrafficEvent) (o : Option ℕ) (es : List RouterTrafficEvent)
    → Bounded e.hostname o es
    → ((t : ℕ) → o ≡ some t → t + 30 ≤ e.timestamp)
    → Apart e es
later-Apart e o [] b late = tt
later-Apart e none (d ∷ ds) b late = ground (arith, later-Apart e none ds b.1 late)
later-Apart e (some t) (d ∷ ds) b late =
    (λ s. omega (arith, b.0 s, late t refl), later-Apart e (some t) ds b.1 late)

Bounded-raise :
    (host : String) (o : Option ℕ) (now : ℕ) (es : List RouterTrafficEvent)
    → Bounded host o es
    → ((t : ℕ) → o ≡ some t → t ≤ now)
    → Bounded host (some now) es
Bounded-raise host o now [] b late = tt
Bounded-raise host none now (e ∷ es) b late =
    (λ s. ground (arith, s, b.0), Bounded-raise host none now es b.1 late)
Bounded-raise host (some t) now (e ∷ es) b late =
    (λ s. omega (arith, b.0 s, late t refl), Bounded-raise host (some t) now es b.1 late)

Bounded-cons :
    (host : String) (o : Option ℕ) (e : RouterTrafficEvent) (es : List RouterTrafficEvent)
    → same e.hostname host ≡ false
    → Bounded host o es
    → Bounded host o (e ∷ es)
Bounded-cons host none e es other b = (other, b)
Bounded-cons host (some t) e es other b = (λ s. ground (arith, s, other), b)

-- `record_traffic` keeps the notes and the spacing.
module _ (p : RouterTrafficPublisher) (hostname : String) (now : ℕ) where
  abbrev sent_event : RouterTrafficEvent
  sent_event = record { hostname = hostname; router_id = p.router_id; timestamp = now }

  module _ (t : Tracked p)
      (late : (s : ℕ) → last_of hostname p.last_sent ≡ some s → s + 30 ≤ now) where
    sent-Tracked :
        (host : String)
        → Bounded host (last_of host (insert hostname now p.last_sent)) (sent_event ∷ p.sent)
    unfolding Tracked
    sent-Tracked host = elim (Bool-cases (same hostname host)) [
      | inl same_host ↦
          rw (← eq_of_same hostname host same_host, last_of-insert_self hostname now p.last_sent)
            (
              λ _. omega arith,
              Bounded-raise hostname (last_of hostname p.last_sent) now p.sent (t hostname)
                  (λ s e. omega (arith, late s e)),
            )
      | inr other ↦
          rw (last_of-insert_ne host hostname now p.last_sent other)
            (Bounded-cons host (last_of host p.last_sent) sent_event p.sent other (t host))
    ]

    sent-Apart : Apart sent_event p.sent
    unfolding Tracked
    sent-Apart = later-Apart sent_event (last_of hostname p.last_sent) p.sent (t hostname) late

not_recent :
    (o : Option ℕ) (now : ℕ) → is_recent o now ≡ false → (s : ℕ) → o ≡ some s → s + 30 ≤ now
not_recent o now free s e = ground arith

record_traffic-keeps :
    (has_room : Bool) (hostname : String) (now : ℕ) (p : RouterTrafficPublisher)
    → Tracked p × Spaced p.sent
    → Tracked (record_traffic has_room hostname now p)
      × Spaced (record_traffic has_room hostname now p).sent
unfolding record_traffic Tracked
record_traffic-keeps has_room hostname now p (t, s) =
    elim (Bool-cases (is_recent (last_of hostname p.last_sent) now)) [
      | inl recent ↦ rw (recent) (t, s)
      | inr free ↦ rw (free) (added has_room (not_recent (last_of hostname p.last_sent) now free))
    ]
  where
    added :
        (b : Bool) (late : (s : ℕ) → last_of hostname p.last_sent ≡ some s → s + 30 ≤ now)
        → let q =
            if b
            then record p {
              sent = sent_event p hostname now ∷ p.sent;
              last_sent = insert hostname now p.last_sent;
            }
            else p in
          Tracked q × Spaced q.sent
    added true late = (sent-Tracked p hostname now t late, (sent-Apart p hostname now t late, s))
    added false late = (t, s)

record_all-keeps :
    (calls : List (Bool × String × ℕ)) (p : RouterTrafficPublisher)
    → Tracked p × Spaced p.sent
    → Spaced (record_all calls p).sent
unfolding record_all
record_all-keeps [] p k = k.1
record_all-keeps ((has_room, hostname, now) ∷ calls) p k =
    record_all-keeps calls (record_traffic has_room hostname now p)
      (record_traffic-keeps has_room hostname now p k)

-- Whatever calls of `record` a new publisher gets, with whatever clock and whenever the channel is
-- full, two events of one host that it sends are at least thirty seconds apart.
pub record_all-Spaced :
    (router_id : String) (calls : List (Bool × String × ℕ))
    → Spaced (record_all calls (new_publisher router_id)).sent
unfolding Tracked
record_all-Spaced router_id calls =
    record_all-keeps calls (new_publisher router_id) (λ host. tt, tt)
