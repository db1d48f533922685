-- ===== src/Dns/Resolution/Answers.antt =====
-- What a query gets, and when it leaves for another name server.
use mikrom.Prelude.{
  ℕ, ◌≡◌, refl, ap, ◌∙◌, String, Bool, true, false, Option, none, some, List, ◌++◌, inl, inr,
  Option-cases, same, arith,
}
use mikrom.Prelude.Chars.{chars}
use mikrom.Prelude.Maps.{get}
use mikrom.Api.RateLimit.Buckets.{F64}
use mikrom.Dns.Zone.{
  MikromZone, user, external, user_zone, ends_with, from_name, extract_record_key,
}
use mikrom.Dns.Zone.Names.{
  from_name-user, extract_record_key-user, from_name-glued, extract_record_key-glued,
}
use mikrom.Dns.Records.{DnsRecordStore, get_record}
use mikrom.Dns.Sync.{Message, run}
use mikrom.Dns.Sync.Latest.{told_by_all, user_record-run}
use mikrom.Dns.Resolution.{
  Settings, Limiter, ResolutionDecision, ResponseCode, aaaa, empty, forward_upstream, nx_domain,
  no_error, is_allowed, is_empty, answer_in, without_record, check_source, resolve,
}

-- A record's answer to a query for it.
unfoldable pub record_answer : Option ℕ → ResolutionDecision
record_answer none = empty nx_domain
record_answer (some ip) = aaaa ip 5

-- A query for a user's name, by its key.
answer-user :
    (lower : String → String) (c : Settings) (s : DnsRecordStore) (key name : String)
    → from_name lower name ≡ user
    → extract_record_key lower name user ≡ some key
    → answer_in lower c s (from_name lower name) name true ≡ record_answer (get key s.user_records)
unfolding get_record record_answer answer_in without_record
answer-user lower c s key name z k =
    ap (λ (zone : MikromZone). answer_in lower c s zone name true) z
    ∙ (elim (Option-cases (get key s.user_records)) [
      | inl e ↦ rw (answer_in, k, e) refl
      | inr (ip, e) ↦ rw (answer_in, k, e) refl
    ])

module _ (f : F64) (lower : String → String) where
  -- A query that is let through gets its answer.
  let_through :
      (c : Settings) (s : DnsRecordStore) (clock : ℕ → ℕ) (source name : String) (is_aaaa : Bool)
      (l : Limiter)
      → is_allowed c source ≡ true
      → (check_source f c clock source l).0 ≡ true
      → (resolve f lower c s clock source name is_aaaa l).0
        ≡ answer_in lower c s (from_name lower name) name is_aaaa
  unfolding resolve
  let_through c s clock source name is_aaaa l a p = rw (a, p) refl

  -- After any run of the scheduler's messages, an AAAA query for a name that is lowered to
  -- `<key>.u.mikrom.internal.`, the key not
  -- empty and not ending in a dot, from a source that may ask and has a token left, gets the address that
  -- the register of that key holds, for 5 seconds, and `NXDomain` where the register is empty.
  pub resolve-run :
      (parse : String → Option ℕ) (ms : List (Message parse)) (c : Settings) (s : DnsRecordStore)
      (clock : ℕ → ℕ) (source key name : String) (l : Limiter)
      → same key "" ≡ false
      → ends_with "." key ≡ false
      → chars (lower name) ≡ chars key ++ chars ".u.mikrom.internal."
      → is_allowed c source ≡ true
      → (check_source f c clock source l).0 ≡ true
      → (resolve f lower c (run parse ms s) clock source name true l).0
        ≡ record_answer (told_by_all parse key ms (get key s.user_records))
  resolve-run parse ms c s clock source key name l h g e a p =
      let_through c (run parse ms s) clock source name true l a p
      ∙ answer-user lower c (run parse ms s) key name (from_name-user lower key name e)
          (extract_record_key-user lower key name h g e)
      ∙ ap record_answer (user_record-run parse key ms s)

  -- A name that is lowered to a key followed by `u.mikrom.internal.`, without a dot between the two, is
  -- answered as a name that is lowered to the same with the dot, if the key is not empty and does not end in
  -- a dot.
  pub glued_name_resolves :
      (c : Settings) (s : DnsRecordStore) (clock : ℕ → ℕ) (source key name glued : String)
      (l : Limiter)
      → same key "" ≡ false
      → ends_with "." key ≡ false
      → chars (lower name) ≡ chars key ++ chars ".u.mikrom.internal."
      → chars (lower glued) ≡ chars key ++ chars user_zone
      → resolve f lower c s clock source glued true l ≡ resolve f lower c s clock source name true l
  unfolding resolve
  glued_name_resolves c s clock source key name glued l h g e d =
      rw
        (
          answer-user lower c s key glued (from_name-glued lower key glued d)
              (extract_record_key-glued lower key glued h g d),
          answer-user lower c s key name (from_name-user lower key name e)
              (extract_record_key-user lower key name h g e),
        )
        refl

  forward_external :
      (c : Settings) (zone : MikromZone) (code : ResponseCode)
      → without_record c zone code ≡ forward_upstream
      → (zone ≡ external) × (is_empty c.upstream_dns ≡ false)
  unfolding without_record
  forward_external c zone code e = ground (arith, e)

  answer-forward :
      (c : Settings) (s : DnsRecordStore) (zone : MikromZone) (name : String) (is_aaaa : Bool)
      → answer_in lower c s zone name is_aaaa ≡ forward_upstream
      → (zone ≡ external) × (is_empty c.upstream_dns ≡ false)
  unfolding answer_in
  answer-forward c s zone name is_aaaa e =
      ground (arith, e, forward_external c zone nx_domain, forward_external c zone no_error)

  -- A query is sent to another name server only if its name is outside of the three zones, there is a server to
  -- send it to, the source may ask and it had a token left.
  pub forwarded_only_external :
      (c : Settings) (s : DnsRecordStore) (clock : ℕ → ℕ) (source name : String) (is_aaaa : Bool)
      (l : Limiter)
      → (resolve f lower c s clock source name is_aaaa l).0 ≡ forward_upstream
      → (from_name lower name ≡ external)
        × (is_empty c.upstream_dns ≡ false)
        × (is_allowed c source ≡ true)
        × ((check_source f c clock source l).0 ≡ true)
  unfolding resolve
  forwarded_only_external c s clock source name is_aaaa l e =
      ground (arith, e, answer-forward c s (from_name lower name) name is_aaaa)
