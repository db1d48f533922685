-- ===== src/Router/Proxy/Breaker/Sequential.antt =====
-- The breaker when one attempt ends before the next begins.
use mikrom.Prelude.{
  ℕ, ◌≡◌, refl, sym, subst, String, Bool, true, false, Option, none, some, List, [], ◌∷◌, inl, inr,
  Bool-cases, Option-cases, same, same_refl, leb, arith,
}
use mikrom.Prelude.Maps.{get, remove, get-insert, get-remove}
use mikrom.Router.Proxy.Breaker.{
  Failures, Selection, breaker_open, no_upstream, peer, Attempt, connect, is_open, upstream_peer,
  fail_to_connect, attempt, attempts,
}

-- At most one failure is counted.
at_most_one : Option (ℕ × ℕ) → Bool
at_most_one none = true
at_most_one (some (count, last)) = leb count 1

Low : Failures → Type 0
Low m = (h : String) → at_most_one (get h m) ≡ true

remove-Low : (host : String) (m : Failures) → Low m → Low (remove host m)
unfolding Low at_most_one
remove-Low host m low h = rw (get-remove h host m) (ground (arith, low h))

-- The first failure behind a selection is counted as one.
fail_first :
    (t : ℕ) (host : String) (m : Failures) → Low m → Low (fail_to_connect t host (remove host m))
unfolding Low at_most_one fail_to_connect
fail_first t host m low h = elim (Bool-cases (same host "")) [
  | inl e ↦ rw (e) (remove-Low host m low h)
  | inr e ↦
      rw
        (
          e,
          get-remove host host m,
          same_refl host,
          get-insert h host (1, t) (remove host m),
          get-remove h host m,
        )
        (ground (arith, low h))
]

-- The three ends of `upstream_peer`.
opened :
    (now : ℕ) (host : String) (selected : Option String) (m : Failures)
    → is_open now host m ≡ true
    → upstream_peer now host selected m ≡ (breaker_open, m)
unfolding upstream_peer
opened now host selected m o = rw (o) refl

ended :
    (now : ℕ) (host : String) (selected : Option String) (m : Failures)
    → is_open now host m ≡ false
    → selected ≡ none
    → upstream_peer now host selected m ≡ (no_upstream, m)
unfolding upstream_peer
ended now host selected m o s = rw (o, s) refl

selects :
    (now : ℕ) (host : String) (selected : Option String) (m : Failures) (address : String)
    → is_open now host m ≡ false
    → selected ≡ some address
    → upstream_peer now host selected m ≡ (peer address, remove host m)
unfolding upstream_peer
selects now host selected m address o s = rw (o, s) refl

attempt-Low : (a : Attempt) (m : Failures) → Low m → Low (attempt a m)
unfolding attempt connect
attempt-Low a m low = elim (Bool-cases (is_open a.made_at a.host m)) [
  | inl o ↦
      subst (λ (r : Selection × Failures). Low (connect a r))
        (sym (opened a.made_at a.host a.selected m o)) low
  | inr o ↦ elim (Option-cases a.selected) [
    | inl s ↦
        subst (λ (r : Selection × Failures). Low (connect a r))
          (sym (ended a.made_at a.host a.selected m o s)) low
    | inr (address, s) ↦
        subst (λ (r : Selection × Failures). Low (connect a r))
          (sym (selects a.made_at a.host a.selected m address o s))
          (elim (Option-cases a.failed_at) [
            | inl f ↦ rw (f) (remove-Low a.host m low)
            | inr (t, f) ↦ rw (f) (fail_first t a.host m low)
          ])
  ]
]

attempts-Low : (rest : List Attempt) (m : Failures) → Low m → Low (attempts rest m)
unfolding attempts
attempts-Low [] m low = low
attempts-Low (a ∷ rest) m low = attempts-Low rest (attempt a m) (attempt-Low a m low)

is_open-Low : (now : ℕ) (host : String) (m : Failures) → Low m → is_open now host m ≡ false
unfolding Low at_most_one is_open
is_open-Low now host m low = ground (arith, low host)

-- However many attempts fail to connect, if each ends before the next begins the breaker is never open, since
-- the selection of the next peer has removed the count.
pub attempts_never_open :
    (rest : List Attempt) (now : ℕ) (host : String) → is_open now host (attempts rest []) ≡ false
unfolding Low at_most_one get
attempts_never_open rest now host =
    is_open-Low now host (attempts rest []) (attempts-Low rest [] (λ (h : String). refl))
