-- ===== src/Scheduler/Tests/Beats.antt =====
-- The theorems on heartbeats and failures, on the sample tables.
use mikrom.Prelude.{◌≡◌, [], ◌∷◌, refl, same, some, find, false}
use mikrom.Prelude.Int.{pos}
use mikrom.Scheduler.Store.Jobs.{has_vm}
use mikrom.Scheduler.Heartbeats.{
  RouterHeartbeat, WorkerHeartbeat, ReportMetrics, process_vm_failure,
}
use mikrom.Scheduler.Heartbeats.Failures.{Recorded, process_vm_failure-Recorded}
use mikrom.Scheduler.Samples.{metrics_one, calm, small, web_job, web_found}

web_on_vm : find (has_vm "vm-web") small.jobs ≡ some web_job
unfolding same
web_on_vm = refl

process_vm_failure-Recorded_example :
    Recorded calm "vm-web" "boot" small web_job web_on_vm web_found
      (process_vm_failure calm "vm-web" "boot" small)
process_vm_failure-Recorded_example =
    process_vm_failure-Recorded calm "vm-web" "boot" small web_job web_on_vm web_found

shop_is_other : same "job-shop" "job-web" ≡ false
unfolding same
shop_is_other = refl

abbrev beat : RouterHeartbeat
beat = record {
  host_id = "host-1";
  hostname = "node";
  advertise_address = "10.0.0.1";
  wireguard_pubkey = "key";
  wireguard_ip = "fd00::9";
  wireguard_port = 51820;
}

abbrev report : ReportMetrics
report = record { host = metrics_one; vms = [] }

abbrev worker_beat : WorkerHeartbeat
worker_beat = record { router = beat; supported_hypervisors = pos 1 ∷ []; metrics = some report }
