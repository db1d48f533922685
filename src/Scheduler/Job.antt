-- ===== src/Scheduler/Job.antt =====
-- Jobs: mikrom-scheduler/src/domain/job.rs and error.rs. Identifiers are texts (domain/id.rs wraps
-- a string); `i64` times are seconds since the epoch, as numbers.
pub mod Codes
use mikrom.Prelude.{ℕ, String, Bool, true, false, Option, none, some, List, [], if◌then◌else◌, ◌==◌}
use mikrom.Prelude.Int.{ℤ, pos, negsuc}

pub data JobStatus : Type 0 where
  pending scheduled running failed cancelled paused stopped : JobStatus

-- The discriminants of the enum.
unfoldable pub status_to_i32 : JobStatus → ℤ
status_to_i32 pending = pos 1
status_to_i32 scheduled = pos 2
status_to_i32 running = pos 3
status_to_i32 failed = pos 4
status_to_i32 cancelled = pos 5
status_to_i32 paused = pos 6
status_to_i32 stopped = pos 7

pub status_from_i32 : ℤ → Option JobStatus
status_from_i32 (negsuc _) = none
status_from_i32 (pos v) =
    if v == 1
    then some pending
    else if v == 2
    then some scheduled
    else if v == 3
    then some running
    else if v == 4
    then some failed
    else if v == 5
    then some cancelled
    else if v == 6
    then some paused
    else if v == 7
    then some stopped
    else none

pub status_as_str : JobStatus → String
status_as_str pending = "pending"
status_as_str scheduled = "scheduled"
status_as_str running = "running"
status_as_str paused = "paused"
status_as_str stopped = "stopped"
status_as_str failed = "failed"
status_as_str cancelled = "cancelled"

-- `==` on the enum, by discriminants.
abbrev pub status_code : JobStatus → ℕ
status_code pending = 1
status_code scheduled = 2
status_code running = 3
status_code failed = 4
status_code cancelled = 5
status_code paused = 6
status_code stopped = 7

pub data AccessMode : Type 0 where
  read_write_once read_write_many read_only_many : AccessMode

pub data HypervisorType : Type 0 where
  unspecified firecracker cloud_hypervisor : HypervisorType

pub hypervisor_to_i32 : HypervisorType → ℤ
hypervisor_to_i32 unspecified = pos 0
hypervisor_to_i32 firecracker = pos 1
hypervisor_to_i32 cloud_hypervisor = pos 3

pub hypervisor_from_i32 : ℤ → Option HypervisorType
hypervisor_from_i32 (negsuc _) = none
hypervisor_from_i32 (pos v) =
    if v == 0
    then some unspecified
    else if v == 1
    then some firecracker
    else if v == 3
    then some cloud_hypervisor
    else none

abbrev pub hypervisor_eq : HypervisorType → HypervisorType → Bool
hypervisor_eq unspecified unspecified = true
hypervisor_eq firecracker firecracker = true
hypervisor_eq cloud_hypervisor cloud_hypervisor = true
hypervisor_eq _ _ = false

pub data WorkloadType : Type 0 where
  app database : WorkloadType

pub workload_to_i32 : WorkloadType → ℤ
workload_to_i32 app = pos 0
workload_to_i32 database = pos 1

pub workload_from_i32 : ℤ → Option WorkloadType
workload_from_i32 (negsuc _) = none
workload_from_i32 (pos v) = if v == 0 then some app else if v == 1 then some database else none

pub record Volume : Type 0 where
  pub volume_id : String
  pub size_mib : ℕ
  pub read_only : Bool
  pub pool_name : String
  pub mount_point : String
  pub access_mode : AccessMode

pub record VmConfig : Type 0 where
  pub vcpus : ℕ
  pub memory_mib : ℕ
  pub disk_mib : ℕ
  pub port : ℕ
  pub env : List (String × String)
  pub ipv6_address : Option String
  pub ipv6_gateway : Option String
  pub volumes : List Volume
  pub health_check_path : String
  pub hypervisor : HypervisorType
  pub workload_type : WorkloadType

abbrev pub default_config : VmConfig
default_config = record {
  vcpus = 1;
  memory_mib = 128;
  disk_mib = 512;
  port = 8080;
  env = [];
  ipv6_address = none;
  ipv6_gateway = none;
  volumes = [];
  health_check_path = "/";
  hypervisor = unspecified;
  workload_type = app;
}

pub record Job : Type 0 where
  pub job_id : String
  pub app_id : String
  pub app_name : String
  pub image : String
  pub tenant_id : String
  pub status : JobStatus
  pub host_id : Option String
  pub vm_id : Option String
  pub scheduled_at : Option ℕ
  pub started_at : Option ℕ
  pub stopped_at : Option ℕ
  pub error_message : Option String
  pub created_at : ℕ
  pub deployment_id : Option String
  pub config : VmConfig

-- `Job::new`; the last argument is the clock's reading.
abbrev pub new_job : String → String → String → String → VmConfig → String → Option String → ℕ → Job
new_job job app_id name image config tenant deployment now = record {
  job_id = job;
  app_id = app_id;
  app_name = name;
  image = image;
  tenant_id = tenant;
  status = pending;
  host_id = none;
  vm_id = none;
  scheduled_at = none;
  started_at = none;
  stopped_at = none;
  error_message = none;
  created_at = now;
  deployment_id = deployment;
  config = config;
}

-- `Job::schedule`
abbrev pub schedule : String → String → ℕ → Job → Job
schedule host vm now j = record j {
  host_id = some host;
  vm_id = some vm;
  status = scheduled;
  scheduled_at = some now;
}

-- Pending, scheduled or running: what scaling counts as a replica.
abbrev pub is_active : JobStatus → Bool
is_active pending = true
is_active scheduled = true
is_active running = true
is_active _ = false

pub data DomainError : Type 0 where
  no_workers no_fit ip_pool_exhausted : DomainError
  job_not_found infrastructure unauthorized invalid_request : String → DomainError
