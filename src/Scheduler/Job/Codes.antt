-- ===== src/Scheduler/Job/Codes.antt =====
-- The numbers that stand for the enums on the wire and in the database.
use mikrom.Prelude.{◌≡◌, ◌↔◌, some, arith}
use mikrom.Prelude.Int.{ℤ}
use mikrom.Scheduler.Job.{
  JobStatus, status_to_i32, status_from_i32, HypervisorType, hypervisor_to_i32, hypervisor_from_i32,
  WorkloadType, workload_to_i32, workload_from_i32,
}

-- A number is read as a job status, a hypervisor or a kind of workload exactly when it is the number
-- under which that value is stored; any other number is refused.
pub from_i32-to_i32 :
    (v : ℤ) (s : JobStatus) (h : HypervisorType) (k : WorkloadType)
    → (status_from_i32 v ≡ some s ↔ v ≡ status_to_i32 s)
      × (hypervisor_from_i32 v ≡ some h ↔ v ≡ hypervisor_to_i32 h)
      × (workload_from_i32 v ≡ some k ↔ v ≡ workload_to_i32 k)
unfolding status_from_i32 status_to_i32 hypervisor_from_i32 hypervisor_to_i32 workload_from_i32
    workload_to_i32
from_i32-to_i32 v s h k = (ground arith, ground arith, ground arith)
