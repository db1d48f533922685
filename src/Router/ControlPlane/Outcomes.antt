-- ===== src/Router/ControlPlane/Outcomes.antt =====
-- What a handler leaves, with the answer that it gives.
use mikrom.Prelude.{
  ◌≡◌, refl, ap, String, Bool, true, false, Option, none, some, [], ◌∷◌, ◌⊎◌, inl, inr,
}
use mikrom.Prelude.Maps.{HashMap}
use mikrom.Router.State.{Libraries, Certificate, Disk}
use mikrom.Router.StateManager.{
  StateManager, prepare_certificates, update_route_targets, replace_state, commit,
}
use mikrom.Router.StateManager.Invariant.{Values, IsPrepared, IsValid}
use mikrom.Router.ControlPlane.{answer_update, apply_router_config_update, store_routes}
use mikrom.Router.ControlPlane.Rows.{RouterConfigUpdate, transaction_error}
use mikrom.Router.ControlPlane.Sync.{World}

module _ {L : Libraries} where
  pub IsPrepared-already :
      (cs : HashMap (Certificate L)) → Values (IsPrepared L) cs → prepare_certificates L cs ≡ cs
  unfolding prepare_certificates
  IsPrepared-already [] p = refl
  IsPrepared-already ((d, c) ∷ cs) (p, ps) = λ i. (d, p i) ∷ IsPrepared-already cs ps i

  replace_state-undo :
      (disk : Disk L) (m n : StateManager L)
      → IsValid m
      → ((replace_state L disk m.snapshot.state m.snapshot.versions n).state ≡ m.state)
        × ((replace_state L disk m.snapshot.state m.snapshot.versions n).versions ≡ m.versions)
  unfolding replace_state commit
  replace_state-undo disk m n v =
      rw (v.snapshot_state, v.snapshot_versions)
        (
          ap (λ (cs : HashMap (Certificate L)). record (m.state) { certificates = cs })
              (IsPrepared-already m.state.certificates v.prepared),
          refl,
        )

  -- Nothing of a world changed that a request or a restart of the handlers would see.
  pub record Unchanged (v w : World L) : Type 0 where
    pub state : w.state_manager.state ≡ v.state_manager.state
    pub versions : w.state_manager.versions ≡ v.state_manager.versions
    pub db : w.db ≡ v.db
    pub resync : w.resync ≡ v.resync

  module _ (disk : Disk L) (db_error : Option String) (update : RouterConfigUpdate) (w : World L)
      (v : IsValid w.state_manager) where
    unstored :
        (e : Option String) (m : StateManager L)
        → (store_routes L disk e update w.state_manager m w).0.success ≡ false
        → Unchanged w (store_routes L disk e update w.state_manager m w).1
    unfolding store_routes
    unstored none m h = absurd (cc)
    unstored (some e) m h = record {
      state = (replace_state-undo disk w.state_manager m v).0;
      versions = (replace_state-undo disk w.state_manager m v).1;
      db = refl;
      resync = refl;
    }

    -- A route update that is answered with a failure, because its targets have no balancer or because the
    -- database does not take it, leaves the state, the versions, the tables and the pending resync as they
    -- were, from a valid manager.
    pub failed_update-Unchanged :
        (apply_router_config_update L disk db_error update w).0.success ≡ false
        → Unchanged w (apply_router_config_update L disk db_error update w).1
    unfolding apply_router_config_update answer_update
    failed_update-Unchanged = outcome (
        update_route_targets L disk update.hostname update.target_urls update.timestamp
          w.state_manager)
      where
        outcome :
            (r : (String ⊎ Bool) × StateManager L)
            → (answer_update L disk db_error update r w).0.success ≡ false
            → Unchanged w (answer_update L disk db_error update r w).1
        outcome (inl err, m) h = record { state = refl; versions = refl; db = refl; resync = refl }
        outcome (inr false, m) h = absurd (cc)
        outcome (inr true, m) h = unstored (transaction_error db_error update.target_urls) m h
