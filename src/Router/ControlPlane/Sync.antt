-- ===== src/Router/ControlPlane/Sync.antt =====
-- `build_route` and `sync_full_state`: mikrom-router/src/application/control_plane/mod.rs.
use mikrom.Prelude.{
  String, Bool, true, false, Option, none, some, List, [], ◌∷◌, ◌++◌, ◌⊎◌, inl, inr, not, ◌&&◌,
  ◌||◌, if◌then◌else◌, same, strip_prefix, unwrap_or,
}
use mikrom.Prelude.Maps.{HashMap, get, insert}
use mikrom.Router.State.{Libraries, Route, Certificate, Disk}
use mikrom.Router.StateManager.{StateManager, update_state}
use mikrom.Router.ControlPlane.Rows.{RouteRow, CertificateRow, AcmeRow, PgPool}

-- The settings that the handlers read, with `crypto::decrypt` under the master key, and whether a text is
-- empty once trimmed, and the order in which the database gives the rows of `routes`, which its `SELECT` leaves
-- open.
pub record ControlPlane : Type 0 where
  pub decrypt : String → String ⊎ String
  pub is_blank : String → Bool
  pub selected : List RouteRow → List RouteRow
  pub api_host : String
  pub api_upstream_url : String
  pub dashboard_host : String
  pub dashboard_upstream_url : String

unfoldable pub tls_alternative_cn_for_host : String → Option String
tls_alternative_cn_for_host host =
    if same host "registry.mikrom.spluca.org" then some "registry.mikrom.es" else none

-- One turn of the loop of `build_route`: the target without its scheme, and whether it was `https`.
unfoldable pub normalize_target : String → String × Bool
normalize_target target = elim (strip_prefix "https://" target) [
  | some rest ↦ (rest, true)
  | none ↦ elim (strip_prefix "http://" target) [
    | some rest ↦ (rest, false)
    | none ↦ (target, false)
  ]
]

unfoldable pub normalized_targets : List String → List String
normalized_targets [] = []
normalized_targets (t ∷ ts) = (normalize_target t).0 ∷ normalized_targets ts

unfoldable pub any_tls : List String → Bool
any_tls [] = false
any_tls (t ∷ ts) = (normalize_target t).1 || any_tls ts

-- The targets of each host, in the order of the rows. The newest time of a host's rows is not used.
abbrev pub push_row : RouteRow → HashMap (List String) → HashMap (List String)
push_row r m = insert r.hostname (unwrap_or (get r.hostname m) [] ++ (r.target_url ∷ [])) m

unfoldable pub group_rows : List RouteRow → HashMap (List String) → HashMap (List String)
group_rows [] m = m
group_rows (r ∷ rows) m = group_rows rows (push_row r m)

module _ (L : Libraries) where
  pub record World : Type 0 where
    pub state_manager : StateManager L
    pub db : PgPool
    -- A resync waits in the channel, which holds one.
    pub resync : Bool

  unfoldable pub build_route : String → List String → String ⊎ Route L
  build_route host targets = elim (L.try_from_iter (normalized_targets targets)) [
    | inl err ↦ inl err
    | inr lb ↦ inr (record {
      host = host;
      targets = normalized_targets targets;
      lb = L.set_health_check lb;
      use_tls = any_tls targets;
      tls_alternative_cn = tls_alternative_cn_for_host host;
    })
  ]

  module _ (cp : ControlPlane) where
    -- The loop over `route_targets`, from the last host to the first, a map having no order: a host whose
    -- targets are refused fails it.
    unfoldable pub build_routes : HashMap (List String) → String ⊎ HashMap (Route L)
    build_routes [] = inr []
    build_routes ((host, targets) ∷ hosts) = elim (build_routes hosts) [
      | inl err ↦ inl err
      | inr routes ↦ elim (build_route host targets) [
        | inl err ↦ inl err
        | inr route ↦ inr (insert host route routes)
      ]
    ]

    -- A host of the configuration, with its one upstream, unless one of the two is blank.
    unfoldable pub with_upstream : String → String → HashMap (Route L) → String ⊎ HashMap (Route L)
    with_upstream host url routes =
        if not (cp.is_blank host) && not (cp.is_blank url)
        then elim (build_route host (url ∷ [])) [
          | inl err ↦ inl err
          | inr route ↦ inr (insert host route routes)
        ]
        else inr routes

    unfoldable pub load_routes : List RouteRow → String ⊎ HashMap (Route L)
    load_routes rows = elim (build_routes (group_rows rows [])) [
      | inl err ↦ inl err
      | inr routes ↦ elim (with_upstream cp.api_host cp.api_upstream_url routes) [
        | inl err ↦ inl err
        | inr routes2 ↦ with_upstream cp.dashboard_host cp.dashboard_upstream_url routes2
      ]
    ]

    unfoldable pub load_tokens : List AcmeRow → HashMap String → HashMap String
    load_tokens [] tokens = tokens
    load_tokens (r ∷ rows) tokens = load_tokens rows (insert r.token r.key_auth tokens)

    abbrev pub load_certificate : CertificateRow → HashMap (Certificate L) → HashMap (Certificate L)
    load_certificate r certs = elim (cp.decrypt r.private_key) [
      | inl err ↦ certs
      | inr key_pem ↦
          insert r.hostname
            (record {
              cert_pem = r.cert_chain;
              key_pem = key_pem;
              parsed_chain = [];
              parsed_key = none;
            })
            certs
    ]

    unfoldable pub load_certificates :
        List CertificateRow → HashMap (Certificate L) → HashMap (Certificate L)
    load_certificates [] certs = certs
    load_certificates (r ∷ rows) certs = load_certificates rows (load_certificate r certs)

    -- `sync_full_state`: the reads fail with a message, or give the rows.
    unfoldable pub sync_full_state : Disk L → Option String → World → (String ⊎ Unit {0}) × World
    sync_full_state disk (some e) w = (inl e, w)
    sync_full_state disk none w = elim (load_routes (cp.selected w.db.routes)) [
      | inl err ↦ (inl err, w)
      | inr routes ↦ (
        inr tt,
        record w {
          state_manager =
              update_state L disk
                (record {
                  routes = routes;
                  acme_tokens = load_tokens w.db.acme_challenges [];
                  certificates = load_certificates w.db.tls_certificates [];
                })
                w.state_manager;
        },
      )
    ]
