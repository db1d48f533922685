-- ===== src/Router/ControlPlane.antt =====
-- The handlers of `ControlPlane`: mikrom-router/src/application/control_plane/handlers.rs. A handler takes
-- the database's answer to its statements, and gives its reply, if any, with the world that it leaves.
mod Order
mod Outcomes
mod Balanced
mod Grouping
mod Loading
mod Reachable
mod Resync
mod Rows
mod Sync
mod Tests
use mikrom.Prelude.{
  String, Bool, true, false, Option, none, some, ◌⊎◌, inl, inr, not, if◌then◌else◌,
}
use mikrom.Router.State.{Libraries, Disk}
use mikrom.Router.StateManager.{
  StateManager, update_route_targets, add_certificate, add_acme_token, remove_acme_token,
  replace_state,
}
use mikrom.Router.ControlPlane.Rows.{
  RouterConfigUpdate, RouterConfigAck, TlsCertificateUpdate, AcmeChallengeUpdate, CertificateRow,
  AcmeRow, replace_route_rows, transaction_error, upsert_certificate, upsert_challenge,
  delete_challenge,
}
use mikrom.Router.ControlPlane.Sync.{ControlPlane, World}

module _ (L : Libraries) where
  abbrev pub ack : Bool → String → RouterConfigAck
  ack success message = record { success = success; message = message }

  module _ (disk : Disk L) (db_error : Option String) where
    -- The end of `apply_router_config_update`, once the manager has taken the targets.
    pub store_routes :
        RouterConfigUpdate → StateManager L → StateManager L → World L → RouterConfigAck × World L
    store_routes update previous current w = elim db_error [
      | some e ↦ (
        ack false e,
        record w {
          state_manager =
              replace_state L disk previous.snapshot.state previous.snapshot.versions current;
        },
      )
      | none ↦ (
        ack true "",
        record w {
          state_manager = current;
          db = record (w.db) {
            routes =
                replace_route_rows update.hostname update.target_urls update.timestamp w.db.routes;
          };
          resync = true;
        },
      )
    ]

  module _ (disk : Disk L) (db_error : Option String) where
    -- What `apply_router_config_update` does with the manager's answer.
    pub answer_update :
        RouterConfigUpdate → (String ⊎ Bool) × StateManager L → World L → RouterConfigAck × World L
    answer_update update (inl err, m) w = (ack false err, w)
    answer_update update (inr false, m) w = (ack true "", w)
    answer_update update (inr true, m) w =
        store_routes disk (transaction_error db_error update.target_urls) update w.state_manager m w

    pub apply_router_config_update : RouterConfigUpdate → World L → RouterConfigAck × World L
    apply_router_config_update update w =
        answer_update update
          (update_route_targets L disk update.hostname update.target_urls update.timestamp
            w.state_manager)
          w

    pub handle_tls_certificate_update : ControlPlane → TlsCertificateUpdate → World L → World L
    handle_tls_certificate_update cp update w = elim (cp.decrypt update.private_key) [
      | inl err ↦ w
      | inr key_pem ↦
          let taken =
            add_certificate L disk update.hostname update.cert_chain key_pem update.timestamp
              w.state_manager in
          if not taken.0 then w else elim db_error [
            | some e ↦ record w { state_manager = taken.1 }
            | none ↦ record w {
              state_manager = taken.1;
              db = record (w.db) {
                tls_certificates =
                    upsert_certificate
                      (record {
                        hostname = update.hostname;
                        cert_chain = update.cert_chain;
                        private_key = update.private_key;
                        expires_at = update.expires_at;
                      })
                      w.db.tls_certificates;
              };
              resync = true;
            }
          ]
    ]

    -- The statement on `acme_challenges`; a resync follows whether it fails or not.
    pub store_challenge : AcmeChallengeUpdate → World L → World L
    store_challenge update w = elim db_error [
      | some e ↦ record w { resync = true }
      | none ↦ record w {
        db = record (w.db) {
          acme_challenges =
              if update.is_delete
              then delete_challenge update.token w.db.acme_challenges
              else upsert_challenge
                  (record {
                    token = update.token;
                    key_auth = update.key_auth;
                    hostname = update.hostname;
                    updated_at = update.timestamp;
                  })
                  w.db.acme_challenges;
        };
        resync = true;
      }
    ]

    pub handle_acme_challenge_update : AcmeChallengeUpdate → World L → World L
    handle_acme_challenge_update update w =
        let taken =
          if update.is_delete
          then remove_acme_token L disk update.token update.timestamp w.state_manager
          else add_acme_token L disk update.token update.key_auth update.timestamp
              w.state_manager in
        if not taken.0 then w else store_challenge update (record w { state_manager = taken.1 })
