-- ===== src/Dns/Sync/Published.antt =====
-- The statuses that the scheduler publishes, as the name server reads them.
use mikrom.Prelude.{ℕ, ◌≡◌, refl, ◌↔◌, String, false, Option, none, arith}
use mikrom.Scheduler.Job.{
  JobStatus, pending, scheduled, running, failed, cancelled, paused, stopped, status_to_i32,
}
use mikrom.Dns.Records.{DnsRecordStore}
use mikrom.Dns.Sync.{AppInfo, deploy_status, handle_app_info}

unread : (st : JobStatus) → (deploy_status (status_to_i32 st) ≡ none) ↔ (st ≡ stopped)
unfolding deploy_status status_to_i32
unread pending = ground arith
unread scheduled = ground arith
unread running = ground arith
unread failed = ground arith
unread cancelled = ground arith
unread paused = ground arith
unread stopped = ground arith

-- Of the scheduler's job statuses the name server can read all but one: an update with the number of a status
-- is not understood exactly if the status is stopped, and then it changes no record.
pub stopped_record_stays :
    (parse : String → Option ℕ) (st : JobStatus) (info : AppInfo) (s : DnsRecordStore)
    → info.status ≡ status_to_i32 st
    → ((deploy_status info.status ≡ none) ↔ (st ≡ stopped))
      × (st ≡ stopped → handle_app_info parse info s ≡ (false, s))
unfolding handle_app_info deploy_status status_to_i32
stopped_record_stays parse st info s e = (rw (e) (unread st), λ h. rw (handle_app_info, e, h) refl)
