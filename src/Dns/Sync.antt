-- ===== src/Dns/Sync.antt =====
-- What the name server makes of the scheduler's messages: mikrom-dns/src/application/sync.rs. The parser of
-- `Ipv6Addr` is a parameter.
pub mod Latest
pub mod Published
use Prim.Native.String.{◌∷◌ as ◌∷ˢ◌}
use mikrom.Prelude.{
  ℕ, String, Bool, true, false, Option, none, some, List, [], ◌∷◌, ◌++◌, ◌==◌, if◌then◌else◌,
}
use mikrom.Prelude.Chars.{chars, of_chars}
use mikrom.Prelude.Int.{ℤ, pos, negsuc}
use mikrom.Dns.Records.{DnsRecordStore, insert_user, remove_user, insert_network}

-- `DeployStatus` of the scheduler's messages
pub data DeployStatus : Type 0 where
  unspecified pending scheduled running failed cancelled paused : DeployStatus

unfoldable pub deploy_status : ℤ → Option DeployStatus
deploy_status (negsuc _) = none
deploy_status (pos v) =
    if v == 0
    then some unspecified
    else if v == 1
    then some pending
    else if v == 2
    then some scheduled
    else if v == 3
    then some running
    else if v == 4
    then some failed
    else if v == 5
    then some cancelled
    else if v == 6
    then some paused
    else none

-- The fields of `AppInfo` and of `WorkerHeartbeat` that are read here.
pub record AppInfo : Type 0 where
  pub app_name : String
  pub tenant_id : String
  pub status : ℤ
  pub ipv6_address : String

pub record WorkerHeartbeat : Type 0 where
  pub host_id : String
  pub wireguard_ip : String

-- `format!("{}.{}", info.app_name, info.tenant_id)`
unfoldable pub record_key : AppInfo → String
record_key info = of_chars (chars info.app_name ++ ("." ∷ chars info.tenant_id))

module _ (parse : String → Option ℕ) where
  -- The result says whether the records may have changed.
  unfoldable pub handle_app_info : AppInfo → DnsRecordStore → Bool × DnsRecordStore
  handle_app_info info s = elim (deploy_status info.status) [
    | none ↦ (false, s)
    | some running ↦ elim (parse info.ipv6_address) [
      | none ↦ (false, s)
      | some ip ↦ (true, insert_user (record_key info) ip s)
    ]
    | some failed ↦ (true, remove_user (record_key info) s)
    | some cancelled ↦ (true, remove_user (record_key info) s)
    | some paused ↦ (true, remove_user (record_key info) s)
    | some _ ↦ (false, s)
  ]

  unfoldable pub handle_worker_heartbeat : WorkerHeartbeat → DnsRecordStore → Bool × DnsRecordStore
  handle_worker_heartbeat h s = elim (parse h.wireguard_ip) [
    | none ↦ (false, s)
    | some ip ↦ (true, insert_network h.host_id ip s)
  ]

  -- The messages in the order in which the inner loop of `run_nats_subscriber` takes them.
  pub data Message : Type 0 where
    job_update : AppInfo → Message
    worker_update : WorkerHeartbeat → Message

  unfoldable pub handle : Message → DnsRecordStore → DnsRecordStore
  handle (job_update info) s = (handle_app_info info s).1
  handle (worker_update h) s = (handle_worker_heartbeat h s).1

  unfoldable pub run : List Message → DnsRecordStore → DnsRecordStore
  run [] s = s
  run (m ∷ ms) s = run ms (handle m s)
