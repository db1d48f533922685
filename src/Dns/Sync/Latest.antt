-- ===== src/Dns/Sync/Latest.antt =====
-- The user record of a key after a run of messages.
use mikrom.Prelude.{
  ℕ, ◌≡◌, refl, String, Option, none, some, List, [], ◌∷◌, inl, inr, Option-cases, if◌then◌else◌,
  same, arith,
}
use mikrom.Prelude.Maps.{get, get-insert, get-remove}
use mikrom.Dns.Records.{DnsRecordStore, insert_user, remove_user, insert_network}
use mikrom.Dns.Sync.{
  DeployStatus, running, failed, cancelled, paused, deploy_status, record_key, handle_app_info,
  handle_worker_heartbeat, Message, job_update, worker_update, handle, run,
}

module _ (parse : String → Option ℕ) where
  -- What a status and an address make of a record: the record of a running app whose address parses is
  -- that address, a failed, cancelled or paused app has none, and anything else changes nothing.
  unfoldable pub record_after : Option DeployStatus → Option ℕ → Option ℕ → Option ℕ
  record_after (some running) (some ip) old = some ip
  record_after (some failed) ip old = none
  record_after (some cancelled) ip old = none
  record_after (some paused) ip old = none
  record_after _ ip old = old

  -- The record of one key as a register: only the updates of the app of that key write to it.
  unfoldable pub told : String → Message parse → Option ℕ → Option ℕ
  told key (job_update info) old =
      if same (record_key info) key
      then record_after (deploy_status info.status) (parse info.ipv6_address) old
      else old
  told key (worker_update h) old = old

  unfoldable pub told_by_all : String → List (Message parse) → Option ℕ → Option ℕ
  told_by_all key [] old = old
  told_by_all key (m ∷ ms) old = told_by_all key ms (told key m old)

  get-handle :
      (key : String) (m : Message parse) (s : DnsRecordStore)
      → get key (handle parse m s).user_records ≡ told key m (get key s.user_records)
  unfolding handle handle_app_info handle_worker_heartbeat insert_user remove_user insert_network
      told record_after
  get-handle key (job_update info) s = elim (Option-cases (parse info.ipv6_address)) [
    | inl e ↦ rw (e) (ground (arith, get-remove key (record_key info) s.user_records))
    | inr (ip, e) ↦ rw (e) (
        ground (
          arith,
          get-remove key (record_key info) s.user_records,
          get-insert key (record_key info) ip s.user_records,
        ))
  ]
  get-handle key (worker_update h) s = ground arith

  -- After any run of messages the user record of a key is what a register holds that starts with the
  -- record of before and takes only the updates of the app of that key, one after the other.
  pub user_record-run :
      (key : String) (ms : List (Message parse)) (s : DnsRecordStore)
      → get key (run parse ms s).user_records ≡ told_by_all key ms (get key s.user_records)
  unfolding run told_by_all
  user_record-run key [] s = refl
  user_record-run key (m ∷ ms) s =
      rw (user_record-run key ms (handle parse m s), get-handle key m s) refl
