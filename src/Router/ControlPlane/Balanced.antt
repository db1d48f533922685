-- ===== src/Router/ControlPlane/Balanced.antt =====
-- Every route that is loaded from the database has a balancer.
use mikrom.Prelude.{
  ◌≡◌, refl, String, List, [], ◌∷◌, ◌⊎◌, inl, inr, not, ◌&&◌, arith, sum_cases, Bool-cases,
}
use mikrom.Prelude.Maps.{HashMap, insert}
use mikrom.Router.State.{Libraries, Route}
use mikrom.Router.StateManager.Invariant.{Values, Values-insert, IsBalanced, has_balancer-inr}
use mikrom.Router.ControlPlane.Rows.{RouteRow}
use mikrom.Router.ControlPlane.Sync.{
  ControlPlane, normalized_targets, group_rows, build_route, build_routes, with_upstream,
  load_routes,
}

module _ (L : Libraries) where
  build_route-IsBalanced :
      (h : String) (ts : List String) (r : Route L) → build_route L h ts ≡ inr r → IsBalanced L r
  unfolding build_route
  build_route-IsBalanced h ts r e = elim (sum_cases (L.try_from_iter (normalized_targets ts))) [
    | inl (err, q) ↦ ground (arith, e, q)
    | inr (lb, q) ↦ ground (arith, e, q, has_balancer-inr L (normalized_targets ts) lb q)
  ]

  module _ (cp : ControlPlane) where
    -- A result that carries routes with balancers, if any.
    abbrev pub Balanced : String ⊎ HashMap (Route L) → Type 0
    Balanced (inl err) = Unit
    Balanced (inr rs) = Values (IsBalanced L) rs

    inserted_Balanced :
        (h : String) (b : String ⊎ Route L) (rs : HashMap (Route L))
        → ((r : Route L) → b ≡ inr r → IsBalanced L r)
        → Values (IsBalanced L) rs
        → Balanced (elim b as (λ _. String ⊎ HashMap (Route L)) [
          | inl err ↦ inl err
          | inr route ↦ inr (insert h route rs)
        ])
    inserted_Balanced h (inl err) rs f v = tt
    inserted_Balanced h (inr r) rs f v = Values-insert (IsBalanced L) h r rs (f r refl) v

    build_routes-Balanced : (hosts : HashMap (List String)) → Balanced (build_routes L cp hosts)
    unfolding build_routes
    build_routes-Balanced [] = tt
    build_routes-Balanced ((h, ts) ∷ hosts) =
        first (build_routes L cp hosts) (build_routes-Balanced hosts)
      where
        first :
            (a : String ⊎ HashMap (Route L))
            → Balanced a
            → Balanced (elim a as (λ _. String ⊎ HashMap (Route L)) [
              | inl err ↦ inl err
              | inr routes ↦ elim (build_route L h ts) as (λ _. String ⊎ HashMap (Route L)) [
                | inl err ↦ inl err
                | inr route ↦ inr (insert h route routes)
              ]
            ])
        first (inl err) v = tt
        first (inr rs) v =
            inserted_Balanced h (build_route L h ts) rs (build_route-IsBalanced h ts) v

    with_upstream-Balanced :
        (h url : String) (rs : HashMap (Route L))
        → Values (IsBalanced L) rs
        → Balanced (with_upstream L cp h url rs)
    unfolding with_upstream
    with_upstream-Balanced h url rs v =
        elim (Bool-cases (not (cp.is_blank h) && not (cp.is_blank url))) [
          | inl e ↦ rw (e) (
              inserted_Balanced h (build_route L h (url ∷ [])) rs
                (build_route-IsBalanced h (url ∷ [])) v)
          | inr e ↦ rw (e) v
        ]

    pub load_routes-Balanced : (rows : List RouteRow) → Balanced (load_routes L cp rows)
    unfolding load_routes
    load_routes-Balanced rows =
        first (build_routes L cp (group_rows rows [])) (build_routes-Balanced (group_rows rows []))
      where
        second :
            (a : String ⊎ HashMap (Route L))
            → Balanced a
            → Balanced (elim a as (λ _. String ⊎ HashMap (Route L)) [
              | inl err ↦ inl err
              | inr routes2 ↦ with_upstream L cp cp.dashboard_host cp.dashboard_upstream_url routes2
            ])
        second (inl err) v = tt
        second (inr rs) v = with_upstream-Balanced cp.dashboard_host cp.dashboard_upstream_url rs v

        first :
            (a : String ⊎ HashMap (Route L))
            → Balanced a
            → Balanced (elim a as (λ _. String ⊎ HashMap (Route L)) [
              | inl err ↦ inl err
              | inr routes ↦
                  elim (with_upstream L cp cp.api_host cp.api_upstream_url routes)
                    as (λ _. String ⊎ HashMap (Route L)) [
                      | inl err ↦ inl err
                      | inr routes2 ↦
                          with_upstream L cp cp.dashboard_host cp.dashboard_upstream_url routes2
                    ]
            ])
        first (inl err) v = tt
        first (inr rs) v =
            second (with_upstream L cp cp.api_host cp.api_upstream_url rs)
              (with_upstream-Balanced cp.api_host cp.api_upstream_url rs v)
