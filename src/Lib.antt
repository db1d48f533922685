-- ===== src/Lib.antt =====
-- mikrom runs applications in small virtual machines. This library is about its scheduler
-- (mikrom-scheduler), which places, starts, pauses, resumes, scales and deletes them, about the
-- private addresses that it gives them (mikrom-proto/src/sixpn.rs), about the router (mikrom-router): its
-- state, its control plane, its health, how it finds the upstream of a request and the traffic events that
-- wake sleeping apps; about the name server (mikrom-dns); and about two parts of the API (mikrom-api):
-- plans and the rate limiter.
--
-- How the parts interact. The scheduler keeps three tables in a database: jobs, workers and apps. The
-- deployment service picks a worker and starts a job's machine on it; the lifecycle service pauses,
-- resumes and deletes machines and rows; the scaling service calls both to bring an app to a number
-- of replicas; the autoscaler loop calls it for every app; heartbeats of the hosts keep workers online
-- and report failed machines, for which restores are put off; router traffic wakes apps. The router's
-- control plane gets route, certificate and challenge updates, gives them to the state manager, which keeps
-- what is newest and a file of it, stores them in the router's database, and now and then loads the whole
-- state from there; the proxy reads that state. The name server takes its records from the scheduler's
-- updates and answers queries from them. The API checks a tenant's plan before it creates an app or
-- anything else and counts it after, and limits requests by bucket and client.
--
-- Files, and the code they model.
--   Prelude, Prelude/*            lists, texts, sorting and Boolean tests that the others share.
--   Scheduler/Job, Worker         mikrom-scheduler/src/domain/job.rs, worker.rs, app.rs, error.rs.
--   Scheduler/World               what a service method runs in: the tables, the trace of requests to
--                                 agents, the updates published, and a monad of state with errors.
--   Scheduler/Store, Store/*      mikrom-scheduler/src/infrastructure/db/mod.rs: each statement is a
--                                 function on a list of rows. Store/Jobs/Rows and Listed have the
--                                 lemmas on rows.
--   Scheduler/Lifecycle           application/lifecycle.rs: get_app_status, pause_app, resume_app,
--                                 delete_app, delete_all_by_app; Lifecycle/Cleanup: cleanup_expired_vms
--                                 and cleanup_beta_deployments.
--   Scheduler/Deployment          application/deployment.rs: deploy_app, select_best_worker.
--   Scheduler/Scaling             application/scaling.rs: scale_app; application/mod.rs:
--                                 autoscale_next_replicas.
--   Scheduler/Reconcile           application/scaling.rs: reconcile_apps and its parts, and
--                                 application/router_restore.rs: process_router_traffic.
--   Scheduler/Heartbeats          application/heartbeats.rs.
--   Scheduler/SixPn               mikrom-proto/src/sixpn.rs.
--   Scheduler/Samples, Tests/*    small tables, and the theorems at them.
--   Router/Health                 mikrom-router/src/domain/health.rs, with a relation of its calls.
--   Router/Traffic                mikrom-router/src/application/traffic/mod.rs: record.
--   Router/State, StateManager    mikrom-router/src/domain/state/mod.rs and
--                                 infrastructure/persistence/state_manager.rs. StateManager/Register is
--                                 the specification of one key; Updates has the calls and the view of a
--                                 key; Refinement, Convergence, Invariant and Restart are about them.
--   Router/ControlPlane           mikrom-router/src/application/control_plane/handlers.rs; its Sync and
--                                 Rows: mod.rs, the messages and the rows. Step and Reachable in
--                                 ControlPlane/Reachable are the control plane as a relation.
--   Router/Proxy                  mikrom-router/src/application/proxy/host.rs, and of mod.rs:
--                                 get_lb_and_tls, has_route, wait_for_route, lookup_acme_key_auth;
--                                 Breaker: of upstream_peer and fail_to_connect, the circuit breaker.
--   Api/Plans, Plans/Repositories mikrom-api/src/domain/plan_tier.rs and
--                                 infrastructure/db/postgres_plan_tier_repository.rs.
--   Api/Entitlements              mikrom-api/src/application/entitlements.rs.
--   Api/RateLimit, RateLimit/*    mikrom-api/src/infrastructure/http/rate_limit.rs: the configuration;
--                                 Classify: classify_request; Buckets: keys, buckets, the middleware.
--   Dns/Zone, Records, Sync       mikrom-dns/src/domain/zone.rs, application/records.rs and sync.rs.
--   Dns/Resolution                mikrom-dns/src/domain/rate_limit.rs, application/resolution.rs.
-- The other files state and prove theorems about the module that they stand under.
--
-- How the code is modelled. Every call of the database or of an agent is one tick, and `Env.fault`
-- says which of them fail, with which error, so that a theorem about all environments is one about all
-- ways in which calls fail. A failed call changes nothing, what was written before an error stays
-- written, and a service method runs to its end before the next. The replicas of one scale-up are
-- deployed one after another, which is one of the orders that the code allows. The scheduler's times are whole
-- seconds, and a comparison of a difference is written as one of sums. Numbers are natural numbers;
-- wrap-around is written out where the code multiplies or narrows (can_fit_vm, the count of
-- replicas). Floats are bit patterns, their arithmetic a parameter (`Floats`). Rows are in the order of
-- the list, which stands for the order in which the database returns them, but the router's full read of `routes` gets
-- them in an order that is a parameter. Further parameters are the
-- clock, the identifiers drawn, SHA-256, the parsing and printing of addresses, and the database's
-- collation. A HashMap is a list of entries,
-- of which the first of a key counts. The router's libraries (pingora, openssl, serde_json), the name server's
-- lowering of names and parser of addresses, and the floats of both it and the API are parameters; a handler of the router,
-- a request to the API and a query of the name server each run to their end before the next.
-- The only fuel is that of the wait for a route, of which one turn more than the wait divided by the pause of
-- a turn is enough; every other loop goes through a list or a number.
--
-- Not modelled: logging, telemetry, the encoding of messages, the publishing of metrics, the columns
-- of the database, the requests for storage, snapshots and migration, which only forward, and the other
-- programs of the repository.
pub mod Prelude
pub mod Scheduler
pub mod Router
pub mod Dns
pub mod Api
