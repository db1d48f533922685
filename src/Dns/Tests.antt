-- ===== src/Dns/Tests.antt =====
-- The theorems on names and answers, at a tenant's database.
use Prim.Native.Char.{Char, code}
use mikrom.Prelude.{
  map, ◌==◌, ℕ, ◌+◌, ◌-◌, ◌*◌, ◌/◌, min, ◌≡◌, ◌↔◌, refl, String, true, false, Option, none, some,
  List, [], ◌∷◌, if◌then◌else◌, same, ltb, leb,
}
use mikrom.Prelude.Chars.{chars, of_chars}
use mikrom.Prelude.Int.{pos}
use mikrom.Scheduler.Job.{stopped, status_to_i32}
use mikrom.Prelude.Maps.{get, insert}
use mikrom.Api.RateLimit.Buckets.{F64}
use mikrom.Dns.Zone.{system, external, from_name, rest_after, suffix_of, extract_record_key}
use mikrom.Dns.Records.{new_store}
use mikrom.Dns.Sync.{AppInfo, Message, job_update, record_key, deploy_status, run, handle_app_info}
use mikrom.Dns.Sync.Latest.{told, told_by_all, record_after}
use mikrom.Dns.Sync.Published.{stopped_record_stays}
use mikrom.Dns.Resolution.{
  Settings, Limiter, aaaa, any_contains, is_allowed, is_empty, check, check_source, answer_in,
  without_record, prune_rate_limit_entries, resolve,
}
use mikrom.Dns.Resolution.Answers.{
  resolve-run, record_answer, glued_name_resolves, forwarded_only_external,
}

-- Whole numbers in place of floats.
abbrev whole : F64
whole = record {
  zero_lit = 0;
  one = 1;
  sixty = 60;
  epsilon = 0;
  of_u32 = λ (n : ℕ). n;
  as_secs = λ (n : ℕ). n / 1000000000;
  add = λ (a b : ℕ). a + b;
  sub = λ (a b : ℕ). a - b;
  mul = λ (a b : ℕ). a * b;
  div = λ (a b : ℕ). a / b;
  min = λ (a b : ℕ). min a b;
  max = λ (a b : ℕ). if ltb a b then b else a;
  floor = λ (n : ℕ). n;
  ceil = λ (n : ℕ). n;
  le = λ (a b : ℕ). leb a b;
  lt = λ (a b : ℕ). ltb a b;
  to_u32 = λ (n : ℕ). n;
  to_u64 = λ (n : ℕ). n;
  from_secs = λ (n : ℕ). n * 1000000000;
}

-- The ASCII letters, lowered.
letter : List Char → List Char → Char → Char
letter (u ∷ us) (l ∷ ls) c = if code u == code c then l else letter us ls c
letter _ _ c = c

ascii_lower : String → String
unfolding chars of_chars letter
ascii_lower s = of_chars (
    map (letter (chars "ABCDEFGHIJKLMNOPQRSTUVWXYZ") (chars "abcdefghijklmnopqrstuvwxyz"))
      (chars s))

abbrev settings : Settings
settings = record {
  upstream_dns = "[::1]:53" ∷ [];
  allowed_subnets = (λ (source : String). same source "fd00::1") ∷ [];
  rate_limit_qps = 100;
  rate_limit_burst = 200;
}

abbrev fresh : Limiter
fresh = record { rate_limit_map = []; last_rate_limit_cleanup = 0 }

abbrev clock : ℕ → ℕ
clock n = 1000000000 + n

abbrev parse : String → Option ℕ
parse s = if same s "fdac::1" then some 1 else if same s "fdac::2" then some 2 else none

abbrev database : AppInfo
database = record {
  app_name = "db";
  tenant_id = "tenant";
  status = pos 3;
  ipv6_address = "fdac::1";
}

-- It starts, moves, and another app is paused.
abbrev news : List (Message parse)
news =
    job_update database
    ∷ job_update (record database { ipv6_address = "fdac::2" })
    ∷ job_update (record database { app_name = "web"; status = pos 6 })
    ∷ []

resolve-run_example :
    (resolve whole ascii_lower settings
      (run parse news new_store)
      clock
      "fd00::1"
      "DB.tenant.u.Mikrom.internal."
      true
      fresh).0
    ≡ aaaa 2 5
unfolding ascii_lower letter of_chars same rest_after chars is_allowed any_contains check_source
    check get insert told_by_all told record_after record_key deploy_status record_answer
resolve-run_example =
    resolve-run whole ascii_lower parse news settings new_store clock "fd00::1" "db.tenant"
      "DB.tenant.u.Mikrom.internal." fresh refl refl refl refl refl

glued_name_resolves_example :
    resolve whole ascii_lower settings
      (run parse news new_store)
      clock
      "fd00::1"
      "db.tenantu.mikrom.internal."
      true
      fresh
    ≡ resolve whole ascii_lower settings
        (run parse news new_store)
        clock
        "fd00::1"
        "DB.tenant.u.Mikrom.internal."
        true
        fresh
unfolding ascii_lower letter of_chars same rest_after chars
glued_name_resolves_example =
    glued_name_resolves whole ascii_lower settings (run parse news new_store) clock "fd00::1"
      "db.tenant" "DB.tenant.u.Mikrom.internal." "db.tenantu.mikrom.internal." fresh refl refl refl
      refl

forwarded_only_external_example :
    (from_name ascii_lower "example.com." ≡ external)
    × (is_empty settings.upstream_dns ≡ false)
    × (is_allowed settings "fd00::1" ≡ true)
    × ((check_source whole settings clock "fd00::1" fresh).0 ≡ true)
unfolding ascii_lower letter resolve same rest_after chars of_chars is_allowed any_contains
    check_source check get insert from_name answer_in without_record extract_record_key suffix_of
    prune_rate_limit_entries
forwarded_only_external_example =
    forwarded_only_external whole ascii_lower settings new_store clock "fd00::1" "example.com." true
      fresh refl

stopped_record_stays_example :
    ((deploy_status (pos 7) ≡ none) ↔ (stopped ≡ stopped))
    × (stopped ≡ stopped
        → handle_app_info parse (record database { status = pos 7 }) (run parse news new_store)
          ≡ (false, run parse news new_store))
unfolding status_to_i32
stopped_record_stays_example =
    stopped_record_stays parse stopped (record database { status = pos 7 })
      (run parse news new_store) refl

-- A name that only ends like one of a zone is taken for one.
docs_is_system : from_name ascii_lower "docs.mikrom.internal." ≡ system
unfolding ascii_lower letter of_chars from_name rest_after chars
docs_is_system = refl
