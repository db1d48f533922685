-- ===== src/Router/ControlPlane/Grouping.antt =====
-- The rows of one host, and the entry that they make among the targets of all hosts.
use mikrom.Prelude.{
  ◌≡◌, refl, sym, ap, ◌∙◌, String, Bool, true, false, Option, none, some, List, [], ◌∷◌, ◌++◌, not,
  if◌then◌else◌, keep, same, same_refl, eq_of_same, arith, unwrap_or,
}
use mathlib.Core.List.{append_assoc, append-nil}
use mikrom.Prelude.Int.{ℤ}
use mikrom.Prelude.Maps.{HashMap, get, get-insert}
use mikrom.Router.ControlPlane.Rows.{RouteRow, replace_route_rows, inserted_rows}
use mikrom.Router.ControlPlane.Sync.{push_row, group_rows}

-- The targets of a host, in the order of the rows.
abbrev pub urls_of : String → List RouteRow → List String
urls_of host [] = []
urls_of host (r ∷ rows) =
    if same r.hostname host then r.target_url ∷ urls_of host rows else urls_of host rows

urls_of-append :
    (h : String) (a b : List RouteRow) → urls_of h (a ++ b) ≡ urls_of h a ++ urls_of h b
urls_of-append h [] b = refl
urls_of-append h (r ∷ a) b = ground (arith, urls_of-append h a b)

urls_of-keep :
    (h : String) (rows : List RouteRow)
    → urls_of h (keep (λ (r : RouteRow). not (same r.hostname h)) rows) ≡ []
urls_of-keep h [] = refl
urls_of-keep h (r ∷ rows) = ground (arith, urls_of-keep h rows)

urls_of-inserted :
    (h : String) (urls : List String) (t : ℤ) → urls_of h (inserted_rows h urls t) ≡ urls
unfolding inserted_rows
urls_of-inserted h [] t = refl
urls_of-inserted h (u ∷ urls) t = ground (arith, same_refl h, urls_of-inserted h urls t)

pub urls_of-replace :
    (h : String) (urls : List String) (t : ℤ) (rows : List RouteRow)
    → urls_of h (replace_route_rows h urls t rows) ≡ urls
unfolding replace_route_rows
urls_of-replace h urls t rows =
    urls_of-append h (keep (λ (r : RouteRow). not (same r.hostname h)) rows)
      (inserted_rows h urls t)
    ∙ (rw (urls_of-keep h rows) (urls_of-inserted h urls t))

-- The entry of a host once its rows are pushed.
abbrev pub grown : Option (List String) → List String → Option (List String)
grown none [] = none
grown none (u ∷ us) = some (u ∷ us)
grown (some ts) us = some (ts ++ us)

pub get-group :
    (h : String) (rows : List RouteRow) (m : HashMap (List String))
    → get h (group_rows rows m) ≡ grown (get h m) (urls_of h rows)
unfolding group_rows
get-group h [] m = unchanged (get h m)
  where
    unchanged : (o : Option (List String)) → o ≡ grown o []
    unchanged none = refl
    unchanged (some ts) = ap some (sym (append-nil ts))
get-group h (r ∷ rows) m =
    get-group h rows (push_row r m)
    ∙ (rw (get-insert h r.hostname (unwrap_or (get r.hostname m) [] ++ (r.target_url ∷ [])) m)
        (pushed (same r.hostname h) refl))
  where
    longer :
        (o : Option (List String)) (us : List String)
        → grown (some (unwrap_or o [] ++ (r.target_url ∷ []))) us ≡ grown o (r.target_url ∷ us)
    longer none us = refl
    longer (some ts) us = ap some (append_assoc ts (r.target_url ∷ []) us)

    pushed :
        (b : Bool)
        → same r.hostname h ≡ b
        → grown
            (if b then some (unwrap_or (get r.hostname m) [] ++ (r.target_url ∷ [])) else get h m)
            (urls_of h rows)
          ≡ grown (get h m) (if b then r.target_url ∷ urls_of h rows else urls_of h rows)
    pushed false e = refl
    pushed true e = rw (eq_of_same r.hostname h e) (longer (get h m) (urls_of h rows))
