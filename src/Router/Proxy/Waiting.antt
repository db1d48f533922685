-- ===== src/Router/Proxy/Waiting.antt =====
-- The waits of the proxy end, and what they find.
use mikrom.Prelude.{
  ℕ, zero, suc, ◌+◌, ◌*◌, ◌≤◌, ◌<◌, ◌≡◌, String, true, false, none, some, is_some, arith, inl, inr,
  ◌⊎◌,
}
use mikrom.Router.State.{Libraries, State}
use mikrom.Router.Proxy.{Upstream, MikromProxy, get_lb_and_tls, has_route, served, wait_for_route}

module _ {L : Libraries} (p : MikromProxy L) (state_at : ℕ → State L) (now_at : ℕ → ℕ)
    (host : String) (start : ℕ) (sleeps : (n : ℕ) → start + 200 * n ≤ now_at n) where
  ends_from :
      (fuel n : ℕ)
      → p.route_wait ≤ 200 * (n + fuel)
      → is_some (wait_for_route L p (suc fuel) state_at now_at (start + p.route_wait) host n) ≡ true
  unfolding wait_for_route
  ends_from zero n h = ground (arith, sleeps n)
  ends_from (suc fuel) n h = ground (arith, ends_from fuel (suc n))

  -- The wait for a route answers within its time divided by 200 ms, rounded up, and one turn more, where each
  -- turn but the last sleeps for 200 ms at least, whatever happens to the routes meanwhile.
  pub wait_for_route_ends :
      (turns : ℕ)
      → p.route_wait ≤ 200 * turns
      → is_some (wait_for_route L p (suc turns) state_at now_at (start + p.route_wait) host 0)
        ≡ true
  wait_for_route_ends turns h = ends_from turns 0 (omega (arith, h))

now_or_later : (n k : ℕ) → n ≤ k → (n ≡ k) ⊎ (n < k)
now_or_later n k h = ground arith

module _ {L : Libraries} (p : MikromProxy L) (state_at : ℕ → State L) (now_at : ℕ → ℕ)
    (host : String) (deadline : ℕ) (k : ℕ) (u : Upstream L)
    (missing : (n : ℕ) → n < k → get_lb_and_tls L p host (state_at (2 * n)) ≡ none)
    (unlisted : (n : ℕ) → n < k → has_route L p host (state_at (2 * n + 1)) ≡ false)
    (early : (n : ℕ) → n < k → now_at n < deadline)
    (there : get_lb_and_tls L p host (state_at (2 * k)) ≡ some u) where
  served_from :
      (fuel n : ℕ)
      → n ≤ k
      → k ≤ n + fuel
      → wait_for_route L p (suc fuel) state_at now_at deadline host n ≡ some (served u)
  unfolding wait_for_route
  served_from zero n h l = let e : n ≡ k = omega (arith, h, l) in rw (e) (ground (arith, there))
  served_from (suc fuel) n h l = elim (now_or_later n k h) [
    | inl e ↦ rw (e) (ground (arith, there))
    | inr b ↦ ground (
      arith,
      missing n b,
      unlisted n b,
      early n b,
      served_from fuel (suc n) (omega (arith, b)) (omega (arith, l)),
    )
  ]

  -- A request is served by the route that is there at the k-th turn of its wait, if it was there at neither
  -- read of the turns before and the time was not up at any of them; the wait may have more turns left.
  pub wait_for_route_serves :
      (more : ℕ)
      → wait_for_route L p (suc (k + more)) state_at now_at deadline host 0 ≡ some (served u)
  wait_for_route_serves more = served_from (k + more) 0 (omega arith) (omega arith)
