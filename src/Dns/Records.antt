-- ===== src/Dns/Records.antt =====
-- The records that the name server holds: mikrom-dns/src/application/records.rs. An IPv6 address is its number.
use mikrom.Prelude.{ℕ, String, Option, none, []}
use mikrom.Prelude.Maps.{HashMap, get as look_up, insert, remove}
use mikrom.Dns.Zone.{MikromZone, system, network, user, external}

pub record DnsRecordStore : Type 0 where
  pub user_records : HashMap ℕ
  pub net_records : HashMap ℕ
  pub sys_records : HashMap ℕ

abbrev pub new_store : DnsRecordStore
new_store = record { user_records = []; net_records = []; sys_records = [] }

unfoldable pub insert_user : String → ℕ → DnsRecordStore → DnsRecordStore
insert_user key ip s = record s { user_records = insert key ip s.user_records }

unfoldable pub remove_user : String → DnsRecordStore → DnsRecordStore
remove_user key s = record s { user_records = remove key s.user_records }

unfoldable pub insert_network : String → ℕ → DnsRecordStore → DnsRecordStore
insert_network key ip s = record s { net_records = insert key ip s.net_records }

unfoldable pub insert_system : String → ℕ → DnsRecordStore → DnsRecordStore
insert_system key ip s = record s { sys_records = insert key ip s.sys_records }

unfoldable pub get_record : MikromZone → String → DnsRecordStore → Option ℕ
get_record system key s = look_up key s.sys_records
get_record network key s = look_up key s.net_records
get_record user key s = look_up key s.user_records
get_record external key s = none
