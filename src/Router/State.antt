-- ===== src/Router/State.antt =====
-- What the router routes by: mikrom-router/src/domain/state/mod.rs and the versions, the snapshot and
-- the cached form of mikrom-router/src/infrastructure/persistence/state_manager.rs.
use mikrom.Prelude.{String, Bool, Option, List, ◌⊎◌}
use mikrom.Prelude.Int.{ℤ}
use mikrom.Prelude.Maps.{HashMap}

-- The parts of pingora and openssl that the state uses, whatever they are.
pub record Libraries : Type 1 where
  pub LoadBalancer : Type 0
  pub X509 : Type 0
  pub PKey : Type 0
  -- `LoadBalancer::<RoundRobin>::try_from_iter`: a balancer, or the message of the error.
  pub try_from_iter : List String → String ⊎ LoadBalancer
  -- the health check and its frequency, as the router sets them
  pub set_health_check : LoadBalancer → LoadBalancer
  pub stack_from_pem : String → Option (List X509)
  pub private_key_from_pem : String → Option PKey

pub record StateVersions : Type 0 where
  pub route_versions : HashMap ℤ
  pub acme_versions : HashMap ℤ
  pub certificate_versions : HashMap ℤ

module _ (L : Libraries) where
  pub record Route : Type 0 where
    pub host : String
    pub targets : List String
    pub lb : L.LoadBalancer
    pub use_tls : Bool
    pub tls_alternative_cn : Option String

  pub record Certificate : Type 0 where
    pub cert_pem : String
    pub key_pem : String
    pub parsed_chain : List L.X509
    pub parsed_key : Option L.PKey

  pub record State : Type 0 where
    pub routes : HashMap Route
    pub acme_tokens : HashMap String
    pub certificates : HashMap Certificate

  pub record StateSnapshot : Type 0 where
    pub state : State
    pub versions : StateVersions

  pub record SerializableState : Type 0 where
    pub routes : HashMap (List String)
    pub acme_tokens : HashMap String
    pub certificates : HashMap Certificate
    pub route_versions : HashMap ℤ
    pub acme_versions : HashMap ℤ
    pub certificate_versions : HashMap ℤ

  -- serde_json, and whether the disk takes the write and the rename.
  pub record Disk : Type 0 where
    pub to_string_pretty : SerializableState → Option String
    pub from_str : String → Option SerializableState
    pub saves : Bool

  -- The file at `cache_path`.
  pub data CacheFile : Type 0 where
    absent unreadable : CacheFile
    content : String → CacheFile
