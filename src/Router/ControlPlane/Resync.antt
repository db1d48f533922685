-- ===== src/Router/ControlPlane/Resync.antt =====
-- What a route update that is taken leaves, and what a resync then makes of it.
use mikrom.Prelude.{
  ◌≡◌, refl, String, Bool, true, false, Option, none, some, List, [], ◌∷◌, ◌⊎◌, inl, inr, same_refl,
  arith, sum_cases,
}
use mikrom.Prelude.Int.{ℤ}
use mikrom.Prelude.Maps.{get, get-insert, get-remove}
use mikrom.Router.State.{Libraries, Disk}
use mikrom.Router.StateManager.{
  StateManager, update_route_targets, update_state, replace_state, commit, should_apply_if_newer,
  route_with, tls_of,
}
use mikrom.Router.StateManager.Updates.{route_item, targets_item}
use mikrom.Router.ControlPlane.{apply_router_config_update, answer_update, store_routes}
use mikrom.Router.ControlPlane.Rows.{RouterConfigUpdate, replace_route_rows, transaction_error}
use mikrom.Router.ControlPlane.Sync.{ControlPlane, World, load_routes, sync_full_state}
use mikrom.Router.ControlPlane.Grouping.{urls_of, grown}
use mikrom.Router.ControlPlane.Order.{Reorders, SameTargets, rebuilt}
use mikrom.Router.ControlPlane.Loading.{Plain, built, IsDeployed, get-load}

module _ {L : Libraries} (disk : Disk L) (db_error : Option String) (update : RouterConfigUpdate)
    (w : World L) where
  abbrev pub updated : World L
  updated = (apply_router_config_update L disk db_error update w).1

  -- The host has the targets of an update, in the state and in the database.
  pub record IsStored (v : World L) : Type 0 where
    pub route :
        route_item (get update.hostname v.state_manager.state.routes)
        ≡ targets_item L update.target_urls
    pub version :
        get update.hostname v.state_manager.versions.route_versions ≡ some update.timestamp
    pub rows :
        v.db.routes
        ≡ replace_route_rows update.hostname update.target_urls update.timestamp w.db.routes
    pub resync : v.resync ≡ true

  -- What the manager's answer to a new update has in it.
  record Answered (r : (String ⊎ Bool) × StateManager L) : Type 0 where
    applied : r.0 ≡ inr false → ⊥
    answered_route :
        r.0 ≡ inr true
        → route_item (get update.hostname r.1.state.routes) ≡ targets_item L update.target_urls
    answered_version :
        r.0 ≡ inr true → get update.hostname r.1.versions.route_versions ≡ some update.timestamp

  answer-IsStored :
      (r : (String ⊎ Bool) × StateManager L)
      → Answered r
      → (answer_update L disk db_error update r w).0.success ≡ true
      → IsStored (answer_update L disk db_error update r w).1
  unfolding answer_update store_routes
  answer-IsStored (inl err, m) a h = absurd (cc)
  answer-IsStored (inr false, m) a h = absurd (a.applied refl)
  answer-IsStored (inr true, m) a h = stored (transaction_error db_error update.target_urls) h
    where
      stored :
          (e : Option String)
          → (store_routes L disk e update w.state_manager m w).0.success ≡ true
          → IsStored (store_routes L disk e update w.state_manager m w).1
      stored (some e) h = absurd (cc)
      stored none h = record {
        route = a.answered_route refl;
        version = a.answered_version refl;
        rows = refl;
        resync = refl;
      }

module _ {L : Libraries} (cp : ControlPlane) (disk : Disk L) (v : World L) where
  -- The routes after a resync are those that the database's rows make.
  synced_route :
      (sync_full_state L cp disk none v).0 ≡ inr tt
      → (k : String) → IsDeployed L cp k
      → route_item (get k (sync_full_state L cp disk none v).1.state_manager.state.routes)
        ≡ built (grown none (urls_of k (cp.selected v.db.routes)))
  unfolding sync_full_state update_state replace_state commit
  synced_route e k d = elim (sum_cases (load_routes L cp (cp.selected v.db.routes))) [
    | inl (err, q) ↦ ground (arith, e, q)
    | inr (rs, q) ↦ ground (arith, e, q, get-load L cp k (cp.selected v.db.routes) rs d q)
  ]

module _ {L : Libraries} (disk : Disk L) (host : String) (t : ℤ) (m : StateManager L)
    (new : should_apply_if_newer (get host m.versions.route_versions) t ≡ true) where
  update_route_targets-applied :
      (ts : List String) → (update_route_targets L disk host ts t m).0 ≡ inr false → ⊥
  unfolding update_route_targets
  update_route_targets-applied [] e = ground (arith, new)
  update_route_targets-applied (x ∷ xs) e = ground (arith, new)

  update_route_targets-version :
      (ts : List String)
      → (update_route_targets L disk host ts t m).0 ≡ inr true
      → get host (update_route_targets L disk host ts t m).1.versions.route_versions ≡ some t
  unfolding update_route_targets commit
  update_route_targets-version [] e =
      ground (arith, new, get-insert host host t m.versions.route_versions, same_refl host)
  update_route_targets-version (x ∷ xs) e =
      ground (arith, new, get-insert host host t m.versions.route_versions, same_refl host)

  update_route_targets-route :
      (ts : List String)
      → (update_route_targets L disk host ts t m).0 ≡ inr true
      → route_item (get host (update_route_targets L disk host ts t m).1.state.routes)
        ≡ targets_item L ts
  unfolding update_route_targets commit
  update_route_targets-route [] e =
      ground (arith, new, get-remove host host m.state.routes, same_refl host)
  update_route_targets-route (x ∷ xs) e = elim (sum_cases (L.try_from_iter (x ∷ xs))) [
    | inl (err, q) ↦ ground (arith, new, q)
    | inr (lb, q) ↦ ground (
      arith,
      new,
      q,
      get-insert host host
          (route_with L disk host (x ∷ xs) lb (tls_of L disk (get host m.state.routes)))
          m.state.routes,
      same_refl host,
    )
  ]

module _ {L : Libraries} (disk : Disk L) (db_error : Option String) (update : RouterConfigUpdate)
    (w : World L) (success : (apply_router_config_update L disk db_error update w).0.success ≡ true)
    (new : should_apply_if_newer
        (get update.hostname w.state_manager.versions.route_versions)
        update.timestamp
      ≡ true) where
  -- A route update that is answered with success, and is newer than the version of its host, is in force in
  -- the state under its own version and in the tables, and a resync is pending.
  pub acknowledged-IsStored : IsStored disk db_error update w (updated disk db_error update w)
  unfolding apply_router_config_update
  acknowledged-IsStored =
      answer-IsStored disk db_error update w _
        (record {
          applied =
              update_route_targets-applied disk update.hostname update.timestamp w.state_manager new
                update.target_urls;
          answered_route =
              update_route_targets-route disk update.hostname update.timestamp w.state_manager new
                update.target_urls;
          answered_version =
              update_route_targets-version disk update.hostname update.timestamp w.state_manager new
                update.target_urls;
        })
        success

  -- When a route update is answered with success, is newer than the version of its host, and names targets
  -- without a scheme for a host that is neither of those of the configuration, then a resync that succeeds
  -- after it, with the database giving the rows in any order, leaves the host a route exactly if the update
  -- did, and with the same targets, each as often, in some order.
  pub resync_agrees :
      (cp : ControlPlane) (later : Disk L)
      → Reorders cp.selected
      → Plain update.target_urls
      → IsDeployed L cp update.hostname
      → (sync_full_state L cp later none (updated disk db_error update w)).0 ≡ inr tt
      → SameTargets
          (route_item (
            get update.hostname
              (sync_full_state L cp later none
                (updated disk db_error update w)).1.state_manager.state.routes))
          (route_item
            (get update.hostname (updated disk db_error update w).state_manager.state.routes))
  resync_agrees cp later reorders plain deployed synced =
      let v : World L = updated disk db_error update w in
      let stored : IsStored disk db_error update w v = acknowledged-IsStored in
      rw (synced_route cp later v synced update.hostname deployed, stored.route, stored.rows)
        (rebuilt L cp.selected reorders update.hostname update.target_urls update.timestamp
          w.db.routes plain)

module _ {L : Libraries} (cp : ControlPlane) (disk : Disk L) (v : World L)
    (synced : (sync_full_state L cp disk none v).0 ≡ inr tt) where
  no_version :
      (k : String)
      → get k (sync_full_state L cp disk none v).1.state_manager.versions.route_versions ≡ none
  unfolding sync_full_state update_state replace_state commit get
  no_version k = elim (sum_cases (load_routes L cp (cp.selected v.db.routes))) [
    | inl (err, q) ↦ ground (arith, synced, q)
    | inr (rs, q) ↦ ground (arith, synced, q)
  ]

  -- After a resync that succeeds, a route update that is answered with success is in force, in the state and
  -- in the tables, however old it is.
  pub resync_forgets_versions :
      (db_error : Option String) (update : RouterConfigUpdate)
      → (apply_router_config_update L disk db_error update
          (sync_full_state L cp disk none v).1).0.success
        ≡ true
      → IsStored disk db_error update
          (sync_full_state L cp disk none v).1
          (updated disk db_error update (sync_full_state L cp disk none v).1)
  resync_forgets_versions db_error update success =
      acknowledged-IsStored disk db_error update (sync_full_state L cp disk none v).1 success
        (rw (no_version update.hostname) refl)
