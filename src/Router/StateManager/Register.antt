-- ===== src/Router/StateManager/Register.antt =====
-- What a key of the router's state promises: a register that keeps the newest of the values offered.
use mikrom.Prelude.{
  ◌≡◌, refl, sym, ap, subst, ◌∙◌, Bool, true, false, Option, none, some, List, [], ◌∷◌, ◌⊎◌, inl,
  inr, if◌then◌else◌, not, arith, Bool-cases,
}
use mikrom.Prelude.Int.{ℤ, leqb, leqb_refl, leqb_total, leqb_trans, leqb_antisym}

-- The time at which the register was last written, if any, and what it holds.
abbrev pub Register : Type 0 → Type 0
Register A = Option ℤ × Option A

-- The register was never written, or was written before `t`.
abbrev pub before : Option ℤ → ℤ → Bool
before none t = true
before (some s) t = not (leqb t s)

not_both : (b : Bool) → b ≡ true → b ≡ false → ⊥
not_both b h k = cc

newest_eq : (t u : ℤ) → before (some t) u ≡ false → before (some u) t ≡ false → t ≡ u
newest_eq t u h k = ground (arith, leqb_antisym t u)

not_before : (u t : ℤ) → before (some u) t ≡ false → leqb t u ≡ true
not_before u t h = ground arith

module _ {A : Type 0} where
  abbrev pub offer : ℤ × Option A → Register A → Register A
  offer (t, x) r = if before r.0 t then (some t, x) else r

  unfoldable pub settle : List (ℤ × Option A) → Register A → Register A
  settle [] r = r
  settle (o ∷ os) r = settle os (offer o r)

  abbrev pub Offered : ℤ × Option A → List (ℤ × Option A) → Type 0
  Offered o [] = ⊥
  Offered o (p ∷ ps) = (o ≡ p) ⊎ Offered o ps

  -- Nothing that was offered is newer than the register.
  abbrev pub Covers : Register A → List (ℤ × Option A) → Type 0
  Covers r os = (t : ℤ) (x : Option A) → Offered (t, x) os → before r.0 t ≡ false

  before_mono :
      (r : Register A) (o : ℤ × Option A) (t : ℤ)
      → before r.0 t ≡ false
      → before (offer o r).0 t ≡ false
  before_mono (none, y) o t h = absurd (cc)
  before_mono (some s, y) (u, x) t h = ground (arith, leqb_total u s, leqb_trans t s u)

  before-settle :
      (os : List (ℤ × Option A)) (r : Register A) (t : ℤ)
      → before r.0 t ≡ false
      → before (settle os r).0 t ≡ false
  unfolding settle
  before-settle [] r t h = h
  before-settle (o ∷ os) r t h = before-settle os (offer o r) t (before_mono r o t h)

  before-offer : (t : ℤ) (x : Option A) (r : Register A) → before (offer (t, x) r).0 t ≡ false
  before-offer t x (none, y) = ground (arith, leqb_refl t)
  before-offer t x (some s, y) = ground (arith, leqb_refl t)

  pub settle-Covers : (os : List (ℤ × Option A)) (r : Register A) → Covers (settle os r) os
  unfolding settle
  settle-Covers [] r t x m = absurd m
  settle-Covers ((s, y) ∷ os) r t x (inl e) =
      before-settle os (offer (s, y) r) t
        (subst (λ (p : ℤ × Option A). before (offer p r).0 t ≡ false) e (before-offer t x r))
  settle-Covers (o ∷ os) r t x (inr m) = settle-Covers os (offer o r) t x m

  -- The register holds what it held, or what some offer that is newer than that brought.
  abbrev pub Source : Register A → List (ℤ × Option A) → Register A → Type 0
  Source r os q =
      (q ≡ r)
      ⊎ ((t : ℤ) × (x : Option A) × Offered (t, x) os × (before r.0 t ≡ true) × (q ≡ (some t, x)))

  offer-Source : (o : ℤ × Option A) (r : Register A) → Source r (o ∷ []) (offer o r)
  offer-Source (t, x) r = elim (Bool-cases (before r.0 t)) [
    | inl e ↦ inr (t, x, inl refl, e, rw (e) refl)
    | inr e ↦ inl (rw (e) refl)
  ]

  before-offer_back :
      (o : ℤ × Option A) (r : Register A) (t : ℤ)
      → before (offer o r).0 t ≡ true
      → before r.0 t ≡ true
  before-offer_back o r t h = elim (Bool-cases (before r.0 t)) [
    | inl e ↦ e
    | inr e ↦ absurd (cc (before_mono r o t e))
  ]

  pub settle-Source : (os : List (ℤ × Option A)) (r : Register A) → Source r os (settle os r)
  unfolding settle
  settle-Source [] r = inl refl
  settle-Source (o ∷ os) r = elim (settle-Source os (offer o r)) [
    | inl e ↦ elim (offer-Source o r) [
      | inl f ↦ inl (e ∙ f)
      | inr (t, x, inl m, b, f) ↦ inr (t, x, inl m, b, e ∙ f)
      | inr (t, x, inr m, b, f) ↦ absurd m
    ]
    | inr (t, x, m, b, f) ↦ inr (t, x, inr m, before-offer_back o r t b, f)
  ]

  -- One offer at each time.
  abbrev pub Consistent : List (ℤ × Option A) → Type 0
  Consistent os = (t : ℤ) (x y : Option A) → Offered (t, x) os → Offered (t, y) os → x ≡ y

  module _ (os ps : List (ℤ × Option A)) (r : Register A)
      (there : (t : ℤ) (x : Option A) → Offered (t, x) os → Offered (t, x) ps)
      (back : (t : ℤ) (x : Option A) → Offered (t, x) ps → Offered (t, x) os)
      (one : Consistent os) where
    settle_eq_from :
        (p q : Register A) → Source r os p → Source r ps q → Covers p os → Covers q ps → p ≡ q
    settle_eq_from p q (inl e) (inl f) cp cq = e ∙ sym f
    settle_eq_from p q (inl e) (inr (t, x, m, b, f)) cp cq = absurd (
        not_both (before r.0 t) b
          (subst (λ (z : Register A). before z.0 t ≡ false) e (cp t x (back t x m))))
    settle_eq_from p q (inr (t, x, m, b, f)) (inl e) cp cq = absurd (
        not_both (before r.0 t) b
          (subst (λ (z : Register A). before z.0 t ≡ false) e (cq t x (there t x m))))
    settle_eq_from p q (inr (t, x, m, b, f)) (inr (u, y, n, c, g)) cp cq =
        let e : t ≡ u =
          newest_eq t u (subst (λ (z : Register A). before z.0 u ≡ false) f (cp u y (back u y n)))
            (subst (λ (z : Register A). before z.0 t ≡ false) g (cq t x (there t x m))) in
        let d : x ≡ y = one u x y (subst (λ (z : ℤ). Offered (z, x) os) e m) (back u y n) in
        f ∙ ap (λ (z : ℤ). (some z, x)) e ∙ ap (λ (z : Option A). (some u, z)) d ∙ sym g

    -- The order of the offers, and how often each is made, do not matter.
    pub settle_unordered : settle os r ≡ settle ps r
    settle_unordered =
        settle_eq_from (settle os r) (settle ps r) (settle-Source os r) (settle-Source ps r)
          (settle-Covers os r) (settle-Covers ps r)

  -- An offer that is newer than the register and as new as every other is the one that stays.
  pub settle_newest :
      (os : List (ℤ × Option A)) (r : Register A) (t : ℤ) (x : Option A)
      → Offered (t, x) os
      → before r.0 t ≡ true
      → ((u : ℤ) (y : Option A) → Offered (u, y) os → leqb u t ≡ true)
      → Consistent os
      → settle os r ≡ (some t, x)
  settle_newest os r t x m b top one = elim (settle-Source os r) [
    | inl e ↦ absurd (
        not_both (before r.0 t) b
          (subst (λ (z : Register A). before z.0 t ≡ false) e (settle-Covers os r t x m)))
    | inr (u, y, n, c, g) ↦
        let e : u ≡ t = leqb_antisym u t (top u y n) (
          not_before u t
            (subst (λ (z : Register A). before z.0 t ≡ false) g (settle-Covers os r t x m))) in
        g
        ∙ ap (λ (z : ℤ). (some z, y)) e
        ∙ ap (λ (z : Option A). (some t, z))
            (one t y x (subst (λ (z : ℤ). Offered (z, y) os) e n) m)
  ]
