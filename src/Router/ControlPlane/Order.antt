-- ===== src/Router/ControlPlane/Order.antt =====
-- The targets of a host when its rows come in another order.
use mikrom.Prelude.{
  ◌≡◌, refl, sym, ap, ◌∙◌, String, Bool, true, ◌&&◌, Option, none, some, List, [], ◌∷◌, same,
  is_some, tally, ltb, arith,
}
use mikrom.Prelude.Int.{ℤ}
use mikrom.Router.State.{Libraries}
use mikrom.Router.StateManager.Updates.{Item, targets, targets_item}
use mikrom.Router.ControlPlane.Rows.{RouteRow, replace_route_rows}
use mikrom.Router.ControlPlane.Sync.{normalize_target, normalized_targets}
use mikrom.Router.ControlPlane.Grouping.{urls_of, urls_of-replace, grown}
use mikrom.Router.ControlPlane.Loading.{Plain, normalized-Plain, built}

-- The rows that pass a test are as many as before, whatever the test.
abbrev pub Reorders : (List RouteRow → List RouteRow) → Type 0
Reorders selected =
    (rows : List RouteRow) (p : RouteRow → Bool) → tally p (selected rows) ≡ tally p rows

abbrev pub item_urls : Option Item → List String
item_urls (some (targets urls)) = urls
item_urls _ = []

-- Both are routes or neither is, with the same targets, each as often.
pub record SameTargets (a b : Option Item) : Type 0 where
  pub both : is_some a ≡ is_some b
  pub as_often : (p : String → Bool) → tally p (item_urls a) ≡ tally p (item_urls b)

tally-urls_of :
    (p : String → Bool) (host : String) (rows : List RouteRow)
    → tally p (urls_of host rows)
      ≡ tally (λ (r : RouteRow). same r.hostname host && p r.target_url) rows
tally-urls_of p host [] = refl
tally-urls_of p host (r ∷ rows) = ground (arith, tally-urls_of p host rows)

tally-normalized :
    (p : String → Bool) (urls : List String)
    → tally p (normalized_targets urls) ≡ tally (λ (t : String). p (normalize_target t).0) urls
unfolding normalized_targets
tally-normalized p [] = refl
tally-normalized p (t ∷ urls) = ground (arith, tally-normalized p urls)

item_urls-built : (us : List String) → item_urls (built (grown none us)) ≡ normalized_targets us
unfolding normalized_targets
item_urls-built [] = refl
item_urls-built (u ∷ us) = refl

item_urls-targets : (L : Libraries) (us : List String) → item_urls (targets_item L us) ≡ us
item_urls-targets L [] = refl
item_urls-targets L (u ∷ us) = refl

is_some-built :
    (us : List String) → is_some (built (grown none us)) ≡ ltb 0 (tally (λ (u : String). true) us)
is_some-built [] = ground arith
is_some-built (u ∷ us) = ground arith

is_some-targets :
    (L : Libraries) (us : List String)
    → is_some (targets_item L us) ≡ ltb 0 (tally (λ (u : String). true) us)
is_some-targets L [] = ground arith
is_some-targets L (u ∷ us) = ground arith

module _ (L : Libraries) (selected : List RouteRow → List RouteRow) (reorders : Reorders selected)
    (host : String) (urls : List String) (t : ℤ) (rows : List RouteRow) where
  abbrev read : List String
  read = urls_of host (selected (replace_route_rows host urls t rows))

  tally-read : (p : String → Bool) → tally p read ≡ tally p urls
  tally-read p =
      tally-urls_of p host (selected (replace_route_rows host urls t rows))
      ∙ reorders (replace_route_rows host urls t rows) _
      ∙ sym (tally-urls_of p host (replace_route_rows host urls t rows))
      ∙ ap (tally p) (urls_of-replace host urls t rows)

  -- The route that is made of the rows has the targets that were written.
  pub rebuilt : Plain urls → SameTargets (built (grown none read)) (targets_item L urls)
  rebuilt plain = record {
    both =
        is_some-built read
        ∙ ap (ltb 0) (tally-read (λ (u : String). true))
        ∙ sym (is_some-targets L urls);
    as_often = λ (p : String → Bool).
        ap (tally p) (item_urls-built read)
        ∙ tally-normalized p read
        ∙ tally-read (λ (u : String). p (normalize_target u).0)
        ∙ sym (tally-normalized p urls)
        ∙ ap (tally p) (normalized-Plain urls plain)
        ∙ ap (tally p) (sym (item_urls-targets L urls));
  }
