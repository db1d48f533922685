-- ===== src/Router/StateManager/Convergence.antt =====
-- The order in which updates come, and how often, does not matter.
use mikrom.Prelude.{
  ◌≡◌, refl, sym, ap, ◌∙◌, true, Option, none, some, List, [], ◌∷◌, inl, inr, Member, ◌⊎◌,
}
use mikrom.Prelude.Int.{ℤ, leqb}
use mikrom.Router.State.{Libraries, Disk}
use mikrom.Router.StateManager.{StateManager}
use mikrom.Router.StateManager.Register.{before, Offered, settle_unordered, settle_newest}
use mikrom.Router.StateManager.Updates.{Update, Key, Item, held, offer_of, and_then, offers, run}
use mikrom.Router.StateManager.Refinement.{held-run}

-- The updates of a run, without the disks.
abbrev pub updates : {L : Libraries} → List (Disk L × Update) → List Update
updates [] = []
updates ((disk, u) ∷ us) = u ∷ updates us

-- What two updates offer to one key at one time is the same.
abbrev pub Agree : Libraries → Update → Update → Type 0
Agree L u v =
    (k : Key) (t : ℤ) (x y : Option Item)
    → offer_of L k u ≡ some (t, x)
    → offer_of L k v ≡ some (t, y)
    → x ≡ y

module _ (L : Libraries) (k : Key) where
  abbrev Made : ℤ × Option Item → List (Disk L × Update) → Type 0
  Made o us = (u : Update) × Member u (updates us) × (offer_of L k u ≡ some o)

  Offered-and_then :
      (o : ℤ × Option Item) (p : Option (ℤ × Option Item)) (os : List (ℤ × Option Item))
      → Offered o os
      → Offered o (and_then L p os)
  Offered-and_then o none os m = m
  Offered-and_then o (some p) os m = inr m

  Offered-and_then_self :
      (o : ℤ × Option Item) (p : Option (ℤ × Option Item)) (os : List (ℤ × Option Item))
      → p ≡ some o
      → Offered o (and_then L p os)
  Offered-and_then_self o p os e = rw (e) (inl refl)

  Offered-offers :
      (us : List (Disk L × Update)) (o : ℤ × Option Item) → Made o us → Offered o (offers L k us)
  Offered-offers [] o (u, m, e) = absurd m
  Offered-offers ((disk, v) ∷ us) o (u, inl s, e) =
      Offered-and_then_self o (offer_of L k v) (offers L k us) (ap (offer_of L k) (sym s) ∙ e)
  Offered-offers ((disk, v) ∷ us) o (u, inr m, e) =
      Offered-and_then o (offer_of L k v) (offers L k us) (Offered-offers us o (u, m, e))

  head_or_tail :
      (o : ℤ × Option Item) (p : Option (ℤ × Option Item)) (os : List (ℤ × Option Item))
      → Offered o (and_then L p os)
      → (p ≡ some o) ⊎ Offered o os
  head_or_tail o none os m = inr m
  head_or_tail o (some p) os (inl e) = inl (ap some (sym e))
  head_or_tail o (some p) os (inr m) = inr m

  Made-offers :
      (us : List (Disk L × Update)) (o : ℤ × Option Item) → Offered o (offers L k us) → Made o us
  Made-offers [] o m = absurd m
  Made-offers ((disk, v) ∷ us) o m = elim (head_or_tail o (offer_of L k v) (offers L k us) m) [
    | inl e ↦ (v, inl refl, e)
    | inr n ↦ later (Made-offers us o n)
  ]
    where
      later : Made o us → Made o ((disk, v) ∷ us)
      later (u, n, e) = (u, inr n, e)

-- The updates of a run agree.
abbrev pub Agreeing : {L : Libraries} → List (Disk L × Update) → Type 0
Agreeing {L} us = (u v : Update) → Member u (updates us) → Member v (updates us) → Agree L u v

module _ {L : Libraries} (us : List (Disk L × Update)) (m : StateManager L) (k : Key)
    (agree : Agreeing us) where
  one_offer :
      (t : ℤ) (x y : Option Item)
      → Offered (t, x) (offers L k us)
      → Offered (t, y) (offers L k us)
      → x ≡ y
  one_offer t x y a b =
      let p : Made L k (t, x) us = Made-offers L k us (t, x) a in
      let q : Made L k (t, y) us = Made-offers L k us (t, y) b in
      agree p.0 q.0 p.1 q.1 k t x y p.2 q.2

  -- Two runs of the same updates, in any order and each any number of times, leave every host, token and
  -- domain with the same version and the same targets, answer or certificate, where no two of the updates
  -- offer different things to one key at one time.
  pub run_unordered :
      (vs : List (Disk L × Update))
      → ((u : Update) → Member u (updates us) → Member u (updates vs))
      → ((u : Update) → Member u (updates vs) → Member u (updates us))
      → held k (run us m) ≡ held k (run vs m)
  run_unordered vs there back =
      held-run us m k
      ∙ settle_unordered (offers L k us) (offers L k vs) (held k m)
          (λ t x o.
            Offered-offers L k vs (t, x) (moved us vs there t x (Made-offers L k us (t, x) o)))
          (λ t x o.
            Offered-offers L k us (t, x) (moved vs us back t x (Made-offers L k vs (t, x) o)))
          one_offer
      ∙ sym (held-run vs m k)
    where
      moved :
          (ws zs : List (Disk L × Update))
          (f : (u : Update) → Member u (updates ws) → Member u (updates zs)) (t : ℤ)
          (x : Option Item)
          → Made L k (t, x) ws
          → Made L k (t, x) zs
      moved ws zs f t x (u, n, e) = (u, f u n, e)

  -- The newest update of a key, newer than what the manager held before the run, is what the key has after
  -- it, wherever in the run it came.
  pub newest_held :
      (u : Update) (t : ℤ) (x : Option Item)
      → Member u (updates us)
      → offer_of L k u ≡ some (t, x)
      → before (held k m).0 t ≡ true
      → ((v : Update) (s : ℤ) (y : Option Item)
          → Member v (updates us)
          → offer_of L k v ≡ some (s, y)
          → leqb s t ≡ true)
      → held k (run us m) ≡ (some t, x)
  newest_held u t x n e b top =
      held-run us m k
      ∙ settle_newest (offers L k us) (held k m) t x (Offered-offers L k us (t, x) (u, n, e)) b
          (λ s y o. bound s y (Made-offers L k us (s, y) o)) one_offer
    where
      bound : (s : ℤ) (y : Option Item) → Made L k (s, y) us → leqb s t ≡ true
      bound s y (v, q, f) = top v s y q f
