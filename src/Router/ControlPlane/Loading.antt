-- ===== src/Router/ControlPlane/Loading.antt =====
-- The route that a host gets when all routes are loaded from the database.
use mikrom.Prelude.{
  ◌≡◌, refl, ap, ◌∙◌, String, false, Option, none, some, List, [], ◌∷◌, ◌⊎◌, inl, inr, not, ◌&&◌,
  if◌then◌else◌, All, same, arith, Bool-cases,
}
use mikrom.Prelude.Maps.{HashMap, get, insert, get-insert}
use mikrom.Router.State.{Libraries, Route}
use mikrom.Router.StateManager.Updates.{Item, targets, route_item}
use mikrom.Router.ControlPlane.Rows.{RouteRow}
use mikrom.Router.ControlPlane.Sync.{
  ControlPlane, normalize_target, normalized_targets, group_rows, build_route, build_routes,
  with_upstream, load_routes,
}
use mikrom.Router.ControlPlane.Grouping.{urls_of, grown, get-group}

-- Each target is as `build_route` would leave it, with no `http://` or `https://` in front.
abbrev pub Plain : List String → Type 0
Plain = All (λ (t : String). (normalize_target t).0 ≡ t)

pub normalized-Plain : (ts : List String) → Plain ts → normalized_targets ts ≡ ts
unfolding normalized_targets
normalized-Plain [] p = refl
normalized-Plain (t ∷ ts) (p, ps) = λ i. p i ∷ normalized-Plain ts ps i

-- The targets of a route that is built from some.
abbrev pub built : Option (List String) → Option Item
built none = none
built (some ts) = some (targets (normalized_targets ts))

module _ (L : Libraries) where
  build_route-targets :
      (h : String) (ts : List String) (r : Route L)
      → build_route L h ts ≡ inr r
      → r.targets ≡ normalized_targets ts
  unfolding build_route
  build_route-targets h ts r e = ground (arith, e)

  module _ (cp : ControlPlane) where
    get-build :
        (k : String) (hosts : HashMap (List String)) (rs : HashMap (Route L))
        → build_routes L cp hosts ≡ inr rs
        → route_item (get k rs) ≡ built (get k hosts)
    unfolding build_routes get
    get-build k [] rs e = ground (arith, e)
    get-build k ((h, ts) ∷ hosts) rs e =
        both (build_routes L cp hosts) (build_route L h ts) (get-build k hosts)
          (build_route-targets h ts) e
      where
        both :
            (a : String ⊎ HashMap (Route L)) (b : String ⊎ Route L)
            → ((qs : HashMap (Route L)) → a ≡ inr qs → route_item (get k qs) ≡ built (get k hosts))
            → ((r : Route L) → b ≡ inr r → r.targets ≡ normalized_targets ts)
            → (elim a as (λ _. String ⊎ HashMap (Route L)) [
              | inl err ↦ inl err
              | inr routes ↦ elim b as (λ _. String ⊎ HashMap (Route L)) [
                | inl err ↦ inl err
                | inr route ↦ inr (insert h route routes)
              ]
            ])
              ≡ inr rs
            → route_item (get k rs) ≡ built (if same h k then some ts else get k hosts)
        both (inl err) b f g q = absurd (cc)
        both (inr qs) (inl err) f g q = absurd (cc)
        both (inr qs) (inr r) f g q = ground (arith, q, f qs refl, g r refl, get-insert k h r qs)

    get-with_upstream :
        (k host url : String) (qs rs : HashMap (Route L))
        → with_upstream L cp host url qs ≡ inr rs
        → same host k ≡ false
        → get k rs ≡ get k qs
    unfolding with_upstream
    get-with_upstream k host url qs rs e ne =
        elim (Bool-cases (not (cp.is_blank host) && not (cp.is_blank url))) [
          | inl b ↦ upstream (build_route L host (url ∷ [])) (ground (arith, e, b))
          | inr b ↦ ground (arith, e, b)
        ]
      where
        upstream :
            (b : String ⊎ Route L)
            → (elim b as (λ _. String ⊎ HashMap (Route L)) [
              | inl err ↦ inl err
              | inr route ↦ inr (insert host route qs)
            ])
              ≡ inr rs
            → get k rs ≡ get k qs
        upstream (inl err) q = absurd (cc)
        upstream (inr r) q = ground (arith, q, get-insert k host r qs)

    -- A host that is not one of the two of the configuration.
    pub record IsDeployed (k : String) : Type 0 where
      pub other_than_api : same cp.api_host k ≡ false
      pub other_than_dashboard : same cp.dashboard_host k ≡ false

    pub get-load :
        (k : String) (rows : List RouteRow) (rs : HashMap (Route L))
        → IsDeployed k
        → load_routes L cp rows ≡ inr rs
        → route_item (get k rs) ≡ built (grown none (urls_of k rows))
    unfolding load_routes get
    get-load k rows rs d =
        loaded (build_routes L cp (group_rows rows []))
          (λ qs e. get-build k (group_rows rows []) qs e ∙ ap built (get-group k rows []))
      where
        last_host :
            (a : String ⊎ HashMap (Route L)) (qs : HashMap (Route L))
            → ((ps : HashMap (Route L)) → a ≡ inr ps → get k ps ≡ get k qs)
            → route_item (get k qs) ≡ built (grown none (urls_of k rows))
            → (elim a as (λ _. String ⊎ HashMap (Route L)) [
              | inl err ↦ inl err
              | inr routes2 ↦ with_upstream L cp cp.dashboard_host cp.dashboard_upstream_url routes2
            ])
              ≡ inr rs
            → route_item (get k rs) ≡ built (grown none (urls_of k rows))
        last_host (inl err) qs f g q = absurd (cc)
        last_host (inr ps) qs f g q =
            ap route_item (
              get-with_upstream k cp.dashboard_host cp.dashboard_upstream_url ps rs q
                d.other_than_dashboard
              ∙ f ps refl)
            ∙ g

        loaded :
            (a : String ⊎ HashMap (Route L))
            → ((qs : HashMap (Route L))
                → a ≡ inr qs
                → route_item (get k qs) ≡ built (grown none (urls_of k rows)))
            → (elim a as (λ _. String ⊎ HashMap (Route L)) [
              | inl err ↦ inl err
              | inr routes ↦
                  elim (with_upstream L cp cp.api_host cp.api_upstream_url routes)
                    as (λ _. String ⊎ HashMap (Route L)) [
                      | inl err ↦ inl err
                      | inr routes2 ↦
                          with_upstream L cp cp.dashboard_host cp.dashboard_upstream_url routes2
                    ]
            ])
              ≡ inr rs
            → route_item (get k rs) ≡ built (grown none (urls_of k rows))
        loaded (inl err) f q = absurd (cc)
        loaded (inr qs) f q =
            last_host (with_upstream L cp cp.api_host cp.api_upstream_url qs) qs
              (λ ps e. get-with_upstream k cp.api_host cp.api_upstream_url qs ps e d.other_than_api)
              (f qs refl) q
