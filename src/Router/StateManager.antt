-- ===== src/Router/StateManager.antt =====
-- `StateManager`: mikrom-router/src/infrastructure/persistence/state_manager.rs. An operation takes the
-- disk, and gives its result with the manager that it leaves.
pub mod Convergence
pub mod Invariant
pub mod Register
pub mod Refinement
pub mod Restart
pub mod Updates
use mikrom.Prelude.{
  String, Bool, true, false, Option, none, some, List, [], ◌∷◌, ◌⊎◌, inl, inr, not, if◌then◌else◌,
  unwrap_or,
}
use mikrom.Prelude.Int.{ℤ, leqb}
use mikrom.Prelude.Maps.{HashMap, get, insert, remove}
use mikrom.Router.State.{
  Libraries, Route, Certificate, State, StateVersions, StateSnapshot, SerializableState, Disk,
  CacheFile, absent, unreadable, content,
}

-- `StateVersions::default`
abbrev pub no_versions : StateVersions
no_versions = record { route_versions = []; acme_versions = []; certificate_versions = [] }

-- `should_apply_if_newer`, of the version that the key has
abbrev pub should_apply_if_newer : Option ℤ → ℤ → Bool
should_apply_if_newer none timestamp = true
should_apply_if_newer (some current) timestamp = not (leqb timestamp current)

module _ (L : Libraries) where
  pub record StateManager : Type 0 where
    pub state : State L
    pub versions : StateVersions
    pub snapshot : StateSnapshot L
    pub cache : CacheFile L

  -- `State::default`
  abbrev pub no_state : State L
  no_state = record { routes = []; acme_tokens = []; certificates = [] }

  unfoldable pub prepare_certificate : Certificate L → Certificate L
  prepare_certificate cert = record cert {
    parsed_chain = unwrap_or (L.stack_from_pem cert.cert_pem) [];
    parsed_key = L.private_key_from_pem cert.key_pem;
  }

  unfoldable pub prepare_certificates : HashMap (Certificate L) → HashMap (Certificate L)
  prepare_certificates [] = []
  prepare_certificates ((domain, cert) ∷ certs) =
      (domain, prepare_certificate cert) ∷ prepare_certificates certs

  abbrev pub targets_of : HashMap (Route L) → HashMap (List String)
  targets_of [] = []
  targets_of ((host, route) ∷ routes) = (host, route.targets) ∷ targets_of routes

  unfoldable pub from_snapshot : State L → StateVersions → SerializableState L
  from_snapshot state versions = record {
    routes = targets_of state.routes;
    acme_tokens = state.acme_tokens;
    certificates = state.certificates;
    route_versions = versions.route_versions;
    acme_versions = versions.acme_versions;
    certificate_versions = versions.certificate_versions;
  }

  -- The loop of `into_snapshot`, from the last route to the first; a route that has no balancer is left
  -- out.
  unfoldable pub restore_routes : HashMap (List String) → HashMap (Route L)
  restore_routes [] = []
  restore_routes ((host, targets) ∷ routes) =
      let rest = restore_routes routes in
      elim (L.try_from_iter targets) [
        | inl err ↦ rest
        | inr lb ↦
            insert host
              (record {
                host = host;
                targets = targets;
                lb = lb;
                use_tls = false;
                tls_alternative_cn = none;
              })
              rest
      ]

  unfoldable pub into_snapshot : SerializableState L → State L × StateVersions
  into_snapshot s = (
    record {
      routes = restore_routes s.routes;
      acme_tokens = s.acme_tokens;
      certificates = prepare_certificates s.certificates;
    },
    record {
      route_versions = s.route_versions;
      acme_versions = s.acme_versions;
      certificate_versions = s.certificate_versions;
    },
  )

  module _ (disk : Disk L) where
    unfoldable pub load_cached_state : CacheFile L → State L × StateVersions
    load_cached_state absent = (no_state, no_versions)
    load_cached_state unreadable = (no_state, no_versions)
    load_cached_state (content text) = elim (disk.from_str text) [
      | none ↦ (no_state, no_versions)
      | some s ↦ into_snapshot s
    ]

    -- `StateManager::new`
    unfoldable pub new_manager : CacheFile L → StateManager
    new_manager file =
        let initial = load_cached_state file in
        record {
          state = initial.0;
          versions = initial.1;
          snapshot = record { state = initial.0; versions = initial.1 };
          cache = file;
        }

    unfoldable pub persist_snapshot : State L → StateVersions → CacheFile L → CacheFile L
    persist_snapshot state versions file =
        elim (disk.to_string_pretty (from_snapshot state versions)) [
          | none ↦ file
          | some json ↦ if disk.saves then content json else file
        ]

    -- The new state and versions, which every operation then copies into the snapshot and the cache.
    unfoldable pub commit : State L → StateVersions → StateManager → StateManager
    commit state versions m = record {
      state = state;
      versions = versions;
      snapshot = record { state = state; versions = versions };
      cache = persist_snapshot state versions m.cache;
    }

    unfoldable pub replace_state : State L → StateVersions → StateManager → StateManager
    replace_state new_state versions m =
        commit (record new_state { certificates = prepare_certificates new_state.certificates })
          versions m

    unfoldable pub update_state : State L → StateManager → StateManager
    update_state new_state m = replace_state new_state no_versions m

    unfoldable pub add_acme_token : String → String → ℤ → StateManager → Bool × StateManager
    add_acme_token token key_auth timestamp m =
        if not (should_apply_if_newer (get token m.versions.acme_versions) timestamp)
        then (false, m)
        else (
          true,
          commit (record (m.state) { acme_tokens = insert token key_auth m.state.acme_tokens })
              (record (m.versions) {
                acme_versions = insert token timestamp m.versions.acme_versions;
              })
              m,
        )

    unfoldable pub remove_acme_token : String → ℤ → StateManager → Bool × StateManager
    remove_acme_token token timestamp m =
        if not (should_apply_if_newer (get token m.versions.acme_versions) timestamp)
        then (false, m)
        else (
          true,
          commit (record (m.state) { acme_tokens = remove token m.state.acme_tokens })
              (record (m.versions) {
                acme_versions = insert token timestamp m.versions.acme_versions;
              })
              m,
        )

    unfoldable pub add_certificate :
        String → String → String → ℤ → StateManager → Bool × StateManager
    add_certificate domain cert_pem key_pem timestamp m =
        if not (should_apply_if_newer (get domain m.versions.certificate_versions) timestamp)
        then (false, m)
        else (
          true,
          commit
              (record (m.state) {
                certificates =
                    insert domain
                      (prepare_certificate (record {
                        cert_pem = cert_pem;
                        key_pem = key_pem;
                        parsed_chain = [];
                        parsed_key = none;
                      }))
                      m.state.certificates;
              })
              (record (m.versions) {
                certificate_versions = insert domain timestamp m.versions.certificate_versions;
              })
              m,
        )

    abbrev pub tls_of : Option (Route L) → Bool × Option String
    tls_of none = (false, none)
    tls_of (some r) = (r.use_tls, r.tls_alternative_cn)

    -- The end of `update_route_targets`: the routes are changed, and the host has a new version.
    abbrev pub set_routes : HashMap (Route L) → String → ℤ → StateManager → StateManager
    set_routes routes host timestamp m =
        commit (record (m.state) { routes = routes })
          (record (m.versions) { route_versions = insert host timestamp m.versions.route_versions })
          m

    abbrev pub route_with : String → List String → L.LoadBalancer → Bool × Option String → Route L
    route_with host targets lb tls = record {
      host = host;
      targets = targets;
      lb = L.set_health_check lb;
      use_tls = tls.0;
      tls_alternative_cn = tls.1;
    }

    unfoldable pub update_route_targets :
        String → List String → ℤ → StateManager → (String ⊎ Bool) × StateManager
    update_route_targets host [] timestamp m =
        if not (should_apply_if_newer (get host m.versions.route_versions) timestamp)
        then (inr false, m)
        else (inr true, set_routes (remove host m.state.routes) host timestamp m)
    update_route_targets host (target ∷ targets) timestamp m =
        if not (should_apply_if_newer (get host m.versions.route_versions) timestamp)
        then (inr false, m)
        else elim (L.try_from_iter (target ∷ targets)) [
          | inl err ↦ (inl err, m)
          | inr lb ↦ (
            inr true,
            set_routes
                (insert host
                  (route_with host (target ∷ targets) lb (tls_of (get host m.state.routes)))
                  m.state.routes)
                host timestamp m,
          )
        ]
