-- ===== src/Router/ControlPlane/Rows.antt =====
-- The messages that the control plane gets, and the rows of its database with the statements on them:
-- mikrom-proto/proto/router.proto and mikrom-router/src/application/control_plane/handlers.rs.
use mikrom.Prelude.{
  String, Bool, true, false, Option, none, some, List, [], ◌∷◌, ◌++◌, not, if◌then◌else◌, same,
  keep,
}
use mikrom.Prelude.Int.{ℤ}

pub record RouterConfigUpdate : Type 0 where
  pub hostname : String
  pub target_urls : List String
  pub timestamp : ℤ

pub record RouterConfigAck : Type 0 where
  pub success : Bool
  pub message : String

pub record TlsCertificateUpdate : Type 0 where
  pub hostname : String
  pub cert_chain : String
  pub private_key : String
  pub expires_at : ℤ
  pub timestamp : ℤ

pub record AcmeChallengeUpdate : Type 0 where
  pub token : String
  pub key_auth : String
  pub hostname : String
  pub is_delete : Bool
  pub timestamp : ℤ

-- The rows of `routes`, `tls_certificates` (less `updated_at`, which is written only) and `acme_challenges`.
pub record RouteRow : Type 0 where
  pub hostname : String
  pub target_url : String
  pub updated_at : ℤ

pub record CertificateRow : Type 0 where
  pub hostname : String
  pub cert_chain : String
  pub private_key : String
  pub expires_at : ℤ

pub record AcmeRow : Type 0 where
  pub token : String
  pub key_auth : String
  pub hostname : String
  pub updated_at : ℤ

pub record PgPool : Type 0 where
  pub routes : List RouteRow
  pub tls_certificates : List CertificateRow
  pub acme_challenges : List AcmeRow

-- The `INSERT INTO routes …` of each target.
unfoldable pub inserted_rows : String → List String → ℤ → List RouteRow
inserted_rows hostname [] timestamp = []
inserted_rows hostname (url ∷ urls) timestamp =
    record { hostname = hostname; target_url = url; updated_at = timestamp }
    ∷ inserted_rows hostname urls timestamp

-- `DELETE FROM routes …` and the inserts, in one transaction
unfoldable pub replace_route_rows : String → List String → ℤ → List RouteRow → List RouteRow
replace_route_rows hostname target_urls timestamp rows =
    keep (λ (r : RouteRow). not (same r.hostname hostname)) rows
    ++ inserted_rows hostname target_urls timestamp

abbrev pub is_listed : String → List String → Bool
is_listed url [] = false
is_listed url (u ∷ urls) = if same u url then true else is_listed url urls

unfoldable pub has_repeated : List String → Bool
has_repeated [] = false
has_repeated (url ∷ urls) = if is_listed url urls then true else has_repeated urls

-- The end of that transaction: it fails as the database says, or on a target that is named twice, since
-- (hostname, target_url) is the primary key.
unfoldable pub transaction_error : Option String → List String → Option String
transaction_error (some e) target_urls = some e
transaction_error none target_urls =
    if has_repeated target_urls
    then some "duplicate key value violates unique constraint \"routes_pkey\""
    else none

-- `INSERT … ON CONFLICT (hostname) DO UPDATE`
unfoldable pub upsert_certificate : CertificateRow → List CertificateRow → List CertificateRow
upsert_certificate row [] = row ∷ []
upsert_certificate row (r ∷ rows) =
    if same r.hostname row.hostname then row ∷ rows else r ∷ upsert_certificate row rows

-- `INSERT … ON CONFLICT (token) DO UPDATE`
unfoldable pub upsert_challenge : AcmeRow → List AcmeRow → List AcmeRow
upsert_challenge row [] = row ∷ []
upsert_challenge row (r ∷ rows) =
    if same r.token row.token then row ∷ rows else r ∷ upsert_challenge row rows

abbrev pub delete_challenge : String → List AcmeRow → List AcmeRow
delete_challenge token rows = keep (λ (r : AcmeRow). not (same r.token token)) rows
