-- ===== src/Scheduler/World.antt =====
-- What a service method runs in: the three tables, the calls made to agents, the job updates
-- published, and a monad of state with errors. What was written stays written after an error.
-- A call of the database or of an agent is one tick; `Env` says how each tick ends.
use mikrom.Prelude.{ℕ, suc, String, Bool, true, false, Option, none, some, List, ◌∷◌}
use mikrom.Scheduler.Job.{Job, HypervisorType, DomainError}
use mikrom.Scheduler.Worker.{Floats, Worker, AppConfig}

pub record RuntimeConfig : Type 0 where
  pub router_idle_timeout_secs : ℕ
  pub worker_stale_threshold_secs : ℕ
  pub restore_retry_backoff_secs : ℕ

-- The requests of `AgentClient` that the services send: host, then machine.
pub data AgentCall : Type 0 where
  pause_vm resume_vm stop_vm : String → String → AgentCall
  delete_vm : String → String → HypervisorType → AgentCall
  start_vm : String → String → AgentCall

pub record Env : Type 0 where
  -- The error with which the n-th outside call ends, if it fails. A failed call changes nothing.
  pub fault : ℕ → Option DomainError
  -- The clock, read after n outside calls.
  pub now : ℕ → ℕ
  -- Version 4 UUIDs drawn after n outside calls.
  pub job_uuid : ℕ → String
  pub vm_uuid : ℕ → String
  -- `message.to_lowercase().contains("not found")`
  pub says_not_found : String → Bool
  -- `parse::<Ipv6Addr>()` into its sixteen octets, `to_string` on those, and SHA-256 of a text.
  pub parse_ipv6 : String → Option (List ℕ)
  pub print_ipv6 : List ℕ → String
  pub sha256 : String → List ℕ
  -- The message of a scale-up in which so many of so many deployments failed, the first thus.
  pub deploy_failure : ℕ → ℕ → DomainError → String
  -- The database's collation: `a` does not come after `b`.
  pub collates : String → String → Bool
  pub fl : Floats
  pub runtime : RuntimeConfig

pub record World : Type 0 where
  pub jobs : List Job
  pub apps : List AppConfig
  pub workers : List Worker
  -- Newest first.
  pub agent_calls : List AgentCall
  pub updates : List Job
  pub tick : ℕ

pub data Result {ℓ} (A : Type ℓ) : Type ℓ where
  ok : A → Result A
  err : DomainError → Result A

-- `is_ok()`
abbrev pub is_ok : {A : Type 0} → Result A → Bool
is_ok (ok _) = true
is_ok (err _) = false

abbrev pub M : Type 0 → Type 0
M A = World → Result A × World

module _ {A : Type 0} where
  abbrev pub pure : A → M A
  pure a w = (ok a, w)

  abbrev pub throw : DomainError → M A
  throw e w = (err e, w)

  abbrev pub gets : (World → A) → M A
  gets f w = (ok (f w), w)

  -- `if let Err(e) = m`, `match m`: the error as a value.
  abbrev pub attempt : M A → M (Result A)
  attempt m w = let (r, w') = m w in (ok r, w')

infixl 5 ◌>>=◌ ◌>>◌
abbrev pub ◌>>=◌ : {A B : Type 0} → M A → (A → M B) → M B
◌>>=◌ m f w = let (r, w') = m w in elim r [ ok a ↦ f a w' | err e ↦ (err e, w') ]

abbrev pub ◌>>◌ : {A B : Type 0} → M A → M B → M B
m >> k = m >>= λ _. k

abbrev pub step_tick : World → World
step_tick w = record w { tick = suc w.tick }

module _ (env : Env) where
  -- A query reads the tables, an update rewrites them; a failed one does nothing.
  abbrev pub query : {A : Type 0} → (World → A) → M A
  query f w = elim (env.fault w.tick) [
    | none ↦ (ok (f w), step_tick w)
    | some e ↦ (err e, step_tick w)
  ]

  abbrev pub update : (World → World) → M (Unit {0})
  update f w = elim (env.fault w.tick) [
    | none ↦ (ok tt, f (step_tick w))
    | some e ↦ (err e, step_tick w)
  ]

  -- A request to an agent is sent, and may fail.
  abbrev pub agent : AgentCall → M (Unit {0})
  agent c w =
      let w' = record w { agent_calls = c ∷ w.agent_calls; tick = suc w.tick } in
      elim (env.fault w.tick) [ none ↦ (ok tt, w') | some e ↦ (err e, w') ]

  abbrev pub clock : M ℕ
  clock w = (ok (env.now w.tick), w)

-- `publish_job_update_best_effort`: an error is only logged.
abbrev pub publish : Job → M (Unit {0})
publish j w = (ok tt, record w { updates = j ∷ w.updates })
