-- ===== src/Scheduler/Store/Apps.antt =====
-- `PgAppRepository`.
use mikrom.Prelude.{String, Bool, not, Option, List, [], ◌∷◌, if◌then◌else◌, same, find, keep}
use mikrom.Scheduler.Worker.{AppConfig}
use mikrom.Scheduler.World.{Env, M, query, update}

abbrev pub is_app : String → AppConfig → Bool
is_app id a = same a.id id

-- `INSERT … ON CONFLICT (id) DO UPDATE`: an existing row keeps its tenant.
abbrev pub upsert_app : AppConfig → List AppConfig → List AppConfig
upsert_app c [] = c ∷ []
upsert_app c (a ∷ rest) =
    if is_app c.id a then record c { tenant_id = a.tenant_id } ∷ rest else a ∷ upsert_app c rest

module _ (env : Env) where
  unfoldable pub update_app_config : AppConfig → M (Unit {0})
  update_app_config c = update env (λ w. record w { apps = upsert_app c w.apps })

  unfoldable pub get_app_config : String → M (Option AppConfig)
  get_app_config id = query env (λ w. find (is_app id) w.apps)

  unfoldable pub get_app_config_by_hostname : String → M (Option AppConfig)
  get_app_config_by_hostname hostname = query env (λ w. find (λ a. same a.hostname hostname) w.apps)

  unfoldable pub list_all_apps : M (List AppConfig)
  list_all_apps = query env (λ w. w.apps)

  unfoldable pub list_autoscaling_apps : M (List AppConfig)
  list_autoscaling_apps = query env (λ w. keep (λ a. a.autoscaling_enabled) w.apps)

  unfoldable pub remove_app_config : String → M (Unit {0})
  remove_app_config id = update env (λ w. record w { apps = keep (λ a. not (is_app id a)) w.apps })

  -- Both statements, in one transaction.
  unfoldable pub remove_app_and_jobs_by_app : String → M (Unit {0})
  remove_app_and_jobs_by_app id = update env (λ w. record w {
    jobs = keep (λ j. not (same j.app_id id)) w.jobs;
    apps = keep (λ a. not (is_app id a)) w.apps;
  })
