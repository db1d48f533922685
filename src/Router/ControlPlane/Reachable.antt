-- ===== src/Router/ControlPlane/Reachable.antt =====
-- The worlds that the control plane reaches, and what holds in all of them.
use mikrom.Prelude.{
  String, Bool, true, false, Option, none, some, [], ◌⊎◌, inl, inr, arith, sum_cases,
}
use mikrom.Prelude.Maps.{HashMap}
use mikrom.Router.State.{Libraries, Route, State, StateVersions, Disk, CacheFile}
use mikrom.Router.StateManager.{
  update_route_targets, StateManager, new_manager, update_state, replace_state,
}
use mikrom.Router.StateManager.Updates.{
  acme_added, acme_removed, certificate_added, targets_updated,
}
use mikrom.Router.StateManager.Invariant.{
  Values, IsBalanced, IsPrepared-all, IsValid, apply-IsValid, commit-IsValid, new_manager-IsValid,
}
use mikrom.Router.ControlPlane.{
  apply_router_config_update, answer_update, store_routes, handle_tls_certificate_update,
  handle_acme_challenge_update, store_challenge,
}
use mikrom.Router.ControlPlane.Rows.{
  RouterConfigUpdate, TlsCertificateUpdate, AcmeChallengeUpdate, PgPool, transaction_error,
}
use mikrom.Router.ControlPlane.Sync.{
  ControlPlane, World, load_routes, load_tokens, load_certificates, sync_full_state,
}
use mikrom.Router.ControlPlane.Balanced.{Balanced, load_routes-Balanced}

module _ {L : Libraries} where
  replace_state-IsValid :
      (disk : Disk L) (s : State L) (v : StateVersions) (m : StateManager L)
      → Values (IsBalanced L) s.routes
      → IsValid (replace_state L disk s v m)
  unfolding replace_state
  replace_state-IsValid disk s v m b = commit-IsValid disk _ v m (IsPrepared-all s.certificates) b

  -- One thing that the control plane does, whatever the disk and the database answer.
  pub data Step (w : World L) : World L → Type 0 where
    config_updated :
        (disk : Disk L) (db_error : Option String) (update : RouterConfigUpdate)
        → Step w (apply_router_config_update L disk db_error update w).1
    tls_updated :
        (disk : Disk L) (db_error : Option String) (cp : ControlPlane)
        (update : TlsCertificateUpdate)
        → Step w (handle_tls_certificate_update L disk db_error cp update w)
    acme_updated :
        (disk : Disk L) (db_error : Option String) (update : AcmeChallengeUpdate)
        → Step w (handle_acme_challenge_update L disk db_error update w)
    synced :
        (disk : Disk L) (db_error : Option String) (cp : ControlPlane)
        → Step w (sync_full_state L cp disk db_error w).1

  -- What a router reaches that starts on some cache file, with some database.
  pub data Reachable : World L → Type 0 where
    started :
        (disk : Disk L) (file : CacheFile L) (db : PgPool)
        → Reachable (record { state_manager = new_manager L disk file; db = db; resync = false })
    stepped : (v w : World L) → Reachable v → Step v w → Reachable w

  module _ (w : World L) (v : IsValid w.state_manager) where
    config-IsValid :
        (disk : Disk L) (db_error : Option String) (update : RouterConfigUpdate)
        → IsValid (apply_router_config_update L disk db_error update w).1.state_manager
    unfolding apply_router_config_update answer_update store_routes
    config-IsValid disk db_error update =
        answered
          (update_route_targets L disk update.hostname update.target_urls update.timestamp
            w.state_manager)
          (apply-IsValid disk w.state_manager v
            (targets_updated update.hostname update.target_urls update.timestamp))
      where
        stored :
            (e : Option String) (m : StateManager L)
            → IsValid m
            → IsValid (store_routes L disk e update w.state_manager m w).1.state_manager
        stored none m n = n
        stored (some e) m n =
            replace_state-IsValid disk w.state_manager.snapshot.state
              w.state_manager.snapshot.versions m (rw (v.snapshot_state) v.balanced)

        answered :
            (r : (String ⊎ Bool) × StateManager L)
            → IsValid r.1
            → IsValid (answer_update L disk db_error update r w).1.state_manager
        answered (inl err, m) n = v
        answered (inr false, m) n = v
        answered (inr true, m) n = stored (transaction_error db_error update.target_urls) m n

    synced-IsValid :
        (disk : Disk L) (db_error : Option String) (cp : ControlPlane)
        → IsValid (sync_full_state L cp disk db_error w).1.state_manager
    unfolding sync_full_state update_state
    synced-IsValid disk (some e) cp = v
    synced-IsValid disk none cp =
        loaded (load_routes L cp (cp.selected w.db.routes))
          (load_routes-Balanced L cp (cp.selected w.db.routes))
      where
        loaded :
            (a : String ⊎ HashMap (Route L))
            → Balanced L cp a
            → IsValid
                (elim a as (λ _. (String ⊎ Unit {0}) × World L) [
                  | inl err ↦ (inl err, w)
                  | inr routes ↦ (
                    inr tt,
                    record w {
                      state_manager =
                          update_state L disk
                            (record {
                              routes = routes;
                              acme_tokens = load_tokens L cp w.db.acme_challenges [];
                              certificates = load_certificates L cp w.db.tls_certificates [];
                            })
                            w.state_manager;
                    },
                  )
                ]).1.state_manager
        loaded (inl err) b = v
        loaded (inr rs) b = replace_state-IsValid disk _ _ w.state_manager b

    tls-IsValid :
        (disk : Disk L) (db_error : Option String) (cp : ControlPlane)
        (update : TlsCertificateUpdate)
        → IsValid (handle_tls_certificate_update L disk db_error cp update w).state_manager
    unfolding handle_tls_certificate_update
    tls-IsValid disk db_error cp update = elim (sum_cases (cp.decrypt update.private_key)) [
      | inl (err, q) ↦ ground (arith, q)
      | inr (key, q) ↦ ground (
        arith,
        q,
        apply-IsValid disk w.state_manager v
            (certificate_added update.hostname update.cert_chain key update.timestamp),
      )
    ]

    acme-IsValid :
        (disk : Disk L) (db_error : Option String) (update : AcmeChallengeUpdate)
        → IsValid (handle_acme_challenge_update L disk db_error update w).state_manager
    unfolding handle_acme_challenge_update store_challenge
    acme-IsValid disk db_error update = ground (
      arith,
      apply-IsValid disk w.state_manager v
          (acme_added update.token update.key_auth update.timestamp),
      apply-IsValid disk w.state_manager v (acme_removed update.token update.timestamp),
    )

  Step-keeps : (w x : World L) → IsValid w.state_manager → Step w x → IsValid x.state_manager
  Step-keeps w _ v (config_updated disk e update) = config-IsValid w v disk e update
  Step-keeps w _ v (tls_updated disk e cp update) = tls-IsValid w v disk e cp update
  Step-keeps w _ v (acme_updated disk e update) = acme-IsValid w v disk e update
  Step-keeps w _ v (synced disk e cp) = synced-IsValid w v disk e cp

-- In every world that the control plane reaches, from whatever cache file and database, by route,
-- certificate and challenge updates and resyncs in any order, the disk and the database failing or not, the
-- snapshot, which a failed update is undone to, is the state that requests read with its versions, every
-- certificate is parsed, and every route has a balancer.
pub Reachable-IsValid : {L : Libraries} (w : World L) → Reachable w → IsValid w.state_manager
Reachable-IsValid _ (started disk file db) = new_manager-IsValid disk file
Reachable-IsValid w (stepped v _ r s) = Step-keeps v w (Reachable-IsValid v r) s
