-- ===== src/Scheduler/Samples.antt =====
-- A small installation for the tests: one worker, three jobs of two tenants, two apps.
use Prim.Native.String.{[] as empty_text, ◌∷◌ as text_cons, count}
use Prim.Native.String.count as count_clauses
use mikrom.Prelude.{
  ℕ, zero, suc, ◌+◌, ◌-◌, ◌*◌, ◌<◌, ◌≡◌, refl, sym, subst, ap, ◌∙◌, String, true, false, Option,
  none, some, [], ◌∷◌, if◌then◌else◌, ltb, same, eq_of_same, Bool-cases, inl, inr, arith,
}
use mikrom.Scheduler.Job.{
  Job, running, firecracker, default_config, new_job, DomainError, infrastructure,
}
use mikrom.Scheduler.Worker.{Floats, HostMetrics, Worker, AppConfig, online, least_loaded}
use mikrom.Scheduler.World.{Env, World}
use mikrom.Scheduler.Store.Jobs.{find_job}
use mikrom.Scheduler.Store.Jobs.Rows.{Distinct}
use mikrom.Scheduler.Deployment.{DeployAppParams}
use mikrom.Scheduler.Scaling.Replicas.{UniqueIds, Fresh}

-- Whole numbers in place of floats.
abbrev pub whole : Floats
whole = record {
  lit = λ m k. m;
  of_nat = λ n. n;
  add = λ a b. a + b;
  sub = λ a b. a - b;
  mul = λ a b. a * b;
  div = λ a b. a;
  max = λ a b. if ltb a b then b else a;
  lt = ltb;
  widen = λ n. n;
  lit64 = λ m k. m;
  mul64 = λ a b. a * b;
  lt64 = ltb;
}

-- As many stars as the number.
unfoldable pub stars : ℕ → String
stars zero = empty_text
stars (suc n) = text_cons "*" (stars n)

pub count-stars : (n : ℕ) → count (stars n) ≡ n
unfolding stars
count-stars zero = refl
count-stars (suc n) = (λ i. count_clauses.cons "*" (stars n) i) ∙ ap suc (count-stars n)

pub stars-apart : (m n : ℕ) → m < n → same (stars m) (stars n) ≡ false
stars-apart m n lt = elim (Bool-cases (same (stars m) (stars n))) [
  | inl e ↦
      absurd (
        omega
          (arith, lt, count-stars m, count-stars n, ap count (eq_of_same (stars m) (stars n) e)))
  | inr e ↦ e
]

-- Every call succeeds, except those at the ticks for which the function gives an error.
abbrev pub faulty : (ℕ → Option DomainError) → Env
faulty fault = record {
  fault = fault;
  now = λ n. 1000 + n;
  job_uuid = stars;
  vm_uuid = λ n. "vm-new";
  says_not_found = λ m. same m "not found";
  parse_ipv6 = λ _. none;
  print_ipv6 = λ _. "fd00::1";
  sha256 = λ _. [];
  deploy_failure = λ failed asked e. "some deployments failed";
  collates = λ a b. true;
  fl = whole;
  runtime = record {
    router_idle_timeout_secs = 300;
    worker_stale_threshold_secs = 60;
    restore_retry_backoff_secs = 30;
  };
}

abbrev pub calm : Env
calm = faulty (λ _. none)

-- The error at one tick only.
abbrev pub fault_at : ℕ → ℕ → Option DomainError
fault_at tick n =
    if ltb n tick then none else if ltb tick n then none else some (infrastructure "down")

abbrev pub metrics_one : HostMetrics
metrics_one = record {
  cpu_usage = 10;
  ram_used_bytes = 1073741824;
  ram_total_bytes = 8589934592;
  disk_used_bytes = 0;
  disk_total_bytes = 107374182400;
  apps_count = 2;
  load_avg_1 = 1;
  load_avg_5 = 1;
  load_avg_15 = 1;
  timestamp = 990;
  vms = [];
}

abbrev pub worker_one : Worker
worker_one = record {
  host_id = "host-1";
  hostname = "node";
  advertise_address = "10.0.0.1";
  wireguard_pubkey = none;
  wireguard_ip = none;
  wireguard_port = some 51820;
  metrics = some metrics_one;
  registered_at = 900;
  last_heartbeat = 995;
  status = online;
  supported_hypervisors = firecracker ∷ [];
}

abbrev pub web_job : Job
web_job = record (new_job "job-web" "web" "web" "nginx" default_config "ann" none 500) {
  status = running;
  host_id = some "host-1";
  vm_id = some "vm-web";
}

abbrev pub shop_job : Job
shop_job = record (new_job "job-shop" "shop" "shop" "shop" default_config "bob" none 600) {
  status = running;
  host_id = some "host-1";
  vm_id = some "vm-shop";
}

abbrev pub web_app : AppConfig
web_app = record {
  id = "web";
  tenant_id = "ann";
  vpc_ipv6_prefix = "";
  hostname = "web.example";
  desired_replicas = 1;
  min_replicas = 0;
  max_replicas = 3;
  autoscaling_enabled = true;
  cpu_threshold = 80;
  mem_threshold = 80;
  last_router_traffic_at = 700;
  last_scaled_to_zero_at = 800;
  restore_retry_after_at = 0;
}

abbrev pub small : World
small = record {
  jobs = web_job ∷ shop_job ∷ [];
  apps = web_app ∷ [];
  workers = worker_one ∷ [];
  agent_calls = [];
  updates = [];
  tick = 0;
}

pub web_found : find_job "job-web" small.jobs ≡ some web_job
unfolding same
web_found = refl

pub small-Distinct : Distinct small.jobs
unfolding same
small-Distinct = (refl, (refl, tt))

-- No identifier of the sample tables consists of stars.
pub not_stars :
    (n m : ℕ) (s : String) → count s ≡ m → same s (stars m) ≡ false → same s (stars n) ≡ false
not_stars n m s counted other = elim (Bool-cases (same s (stars n))) [
  | inl e ↦ absurd (
      ground (
        arith,
        e,
        other,
        subst (λ k. same s (stars k) ≡ true)
            (sym (count-stars n) ∙ sym (ap count (eq_of_same s (stars n) e)) ∙ counted) e,
      ))
  | inr e ↦ e
]

pub small-Fresh : Fresh calm small
unfolding Fresh stars same
small-Fresh n le =
    ground (arith, not_stars n 7 "job-web" refl refl, not_stars n 8 "job-shop" refl refl)

pub calm-UniqueIds : UniqueIds calm
unfolding UniqueIds
calm-UniqueIds = stars-apart

-- A deployment of the first app.
abbrev pub params_web : DeployAppParams
params_web = record {
  app_id = "web";
  app_name = "web";
  image = "nginx";
  tenant_id = "ann";
  deployment_id = "";
  vpc_ipv6_prefix = "";
  config = default_config;
  strategy = least_loaded;
}

pub fresh_at : (n : ℕ) → find_job (calm.job_uuid n) small.jobs ≡ none
unfolding Fresh
fresh_at n = small-Fresh n (omega arith)
