-- ===== src/Scheduler/Worker.antt =====
-- Workers: mikrom-scheduler/src/domain/worker.rs. `f32` and `f64` values are bit patterns; their
-- arithmetic is a parameter (`Floats`), as the hardware's.
use mikrom.Prelude.{
  ℕ, String, Bool, true, Option, List, ◌-◌, ◌*◌, ◌%◌, ◌^◌, ◌&&◌, if◌then◌else◌, ◌==◌, leb,
}
use mikrom.Scheduler.Job.{HypervisorType}

pub record Floats : Type 0 where
  -- The float nearest to m / 10 ^ k, and `n as f32`.
  pub lit : ℕ → ℕ → ℕ
  pub of_nat : ℕ → ℕ
  pub add : ℕ → ℕ → ℕ
  pub sub : ℕ → ℕ → ℕ
  pub mul : ℕ → ℕ → ℕ
  pub div : ℕ → ℕ → ℕ
  pub max : ℕ → ℕ → ℕ
  pub lt : ℕ → ℕ → Bool
  -- `as f64`, and the same on `f64`.
  pub widen : ℕ → ℕ
  pub lit64 : ℕ → ℕ → ℕ
  pub mul64 : ℕ → ℕ → ℕ
  pub lt64 : ℕ → ℕ → Bool

pub record VmMetrics : Type 0 where
  pub cpu_usage : ℕ
  pub ram_used_bytes : ℕ
  pub tx_bytes : ℕ
  pub rx_bytes : ℕ

pub record HostMetrics : Type 0 where
  pub cpu_usage : ℕ
  pub ram_used_bytes : ℕ
  pub ram_total_bytes : ℕ
  pub disk_used_bytes : ℕ
  pub disk_total_bytes : ℕ
  pub apps_count : ℕ
  pub load_avg_1 : ℕ
  pub load_avg_5 : ℕ
  pub load_avg_15 : ℕ
  pub timestamp : ℕ
  pub vms : List (String × VmMetrics)

-- `u64` multiplication wraps in a release build.
abbrev pub u64 : ℕ → ℕ
u64 n = n % 2 ^ 64

unfoldable pub can_fit_vm : HostMetrics → ℕ → ℕ → Bool
can_fit_vm m memory_mib disk_mib =
    let ram_free = m.ram_total_bytes - m.ram_used_bytes in
    let disk_free = m.disk_total_bytes - m.disk_used_bytes in
    let ram_req = u64 (u64 (memory_mib * 1024) * 1024) in
    let disk_req = u64 (u64 (disk_mib * 1024) * 1024) in
    leb ram_req ram_free && (if m.disk_total_bytes == 0 then true else leb disk_req disk_free)

unfoldable pub calculate_score : Floats → HostMetrics → ℕ → ℕ
calculate_score fl m max_apps =
    let cpu_score = sub (lit 1 0) (div m.cpu_usage (lit 100 0)) in
    let ram_score = sub (lit 1 0) (div (of_nat m.ram_used_bytes) (of_nat m.ram_total_bytes)) in
    let apps_score = sub (lit 1 0) (div (of_nat m.apps_count) (of_nat max_apps)) in
    max (add (add (mul cpu_score (lit 4 1)) (mul ram_score (lit 4 1))) (mul apps_score (lit 2 1)))
      (lit 0 0)
  where
    open fl use {lit, of_nat, add, sub, mul, div, max}

pub data WorkerStatus : Type 0 where
  online offline : WorkerStatus

pub record Worker : Type 0 where
  pub host_id : String
  pub hostname : String
  pub advertise_address : String
  pub wireguard_pubkey : Option String
  pub wireguard_ip : Option String
  pub wireguard_port : Option ℕ
  pub metrics : Option HostMetrics
  pub registered_at : ℕ
  pub last_heartbeat : ℕ
  pub status : WorkerStatus
  pub supported_hypervisors : List HypervisorType

pub data SchedulingStrategy : Type 0 where
  least_loaded bin_packing : SchedulingStrategy

-- mikrom-scheduler/src/domain/app.rs
pub record AppConfig : Type 0 where
  pub id : String
  pub tenant_id : String
  pub vpc_ipv6_prefix : String
  pub hostname : String
  pub desired_replicas : ℕ
  pub min_replicas : ℕ
  pub max_replicas : ℕ
  pub autoscaling_enabled : Bool
  pub cpu_threshold : ℕ
  pub mem_threshold : ℕ
  pub last_router_traffic_at : ℕ
  pub last_scaled_to_zero_at : ℕ
  pub restore_retry_after_at : ℕ
