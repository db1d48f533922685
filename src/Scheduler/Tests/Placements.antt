-- ===== src/Scheduler/Tests/Placements.antt =====
-- The theorems on placement and deployment, on the sample tables.
use mikrom.Prelude.{false, ◌≡◌, ◌↔◌, ◌⊎◌, ◌≤◌, ◌+◌, ◌*◌, refl, same, true, inl, [], ◌∷◌, arith}
use mikrom.Scheduler.Job.{default_config}
use mikrom.Scheduler.Worker.{least_loaded, can_fit_vm}
use mikrom.Scheduler.World.{ok, is_ok}
use mikrom.Scheduler.Deployment.{deploy_app, is_viable, select_best_worker}
use mikrom.Scheduler.Deployment.Launch.{Deployed, deploy_app-Deployed}
use mikrom.Scheduler.Deployment.Success.{deploy_app_succeeds}
use mikrom.Scheduler.Deployment.Selection.{IsScoreOrder}
use mikrom.Scheduler.Deployment.Selection.Ranking.{fitness, better_for}
use mikrom.Scheduler.Deployment.Selection.Placement.{select_best_worker_optimal, candidate}
use mikrom.Scheduler.Samples.{calm, small, whole, worker_one, metrics_one, params_web, fresh_at}
use mikrom.Scheduler.Bounds.{can_fit_vm-exact}
use mikrom.Scheduler.Addresses.{Agree, allocate_vm_ipv6_collides}
use mikrom.Scheduler.SixPn.{generate_vpc_prefix, allocate_vm_ipv6}

deploy_app-Deployed_example : Deployed calm params_web small (deploy_app calm params_web small)
deploy_app-Deployed_example = deploy_app-Deployed calm params_web small (fresh_at 0)

whole-IsScoreOrder : IsScoreOrder whole
whole-IsScoreOrder = record {
  asymmetric = λ x y h. ground arith;
  comparable = λ x y z h k. ground arith;
}

one_chosen : (select_best_worker calm default_config "web" least_loaded small).0 ≡ ok worker_one
unfolding same select_best_worker is_viable can_fit_vm
one_chosen = refl

one_fits : candidate calm default_config small worker_one ≡ true
unfolding is_viable can_fit_vm
one_fits = refl

select_best_worker_optimal_example :
    better_for whole least_loaded
      (fitness whole "web" small.jobs worker_one)
      (fitness whole "web" small.jobs worker_one)
    ≡ false
select_best_worker_optimal_example =
    select_best_worker_optimal calm default_config "web" least_loaded small refl refl worker_one
      worker_one whole-IsScoreOrder one_chosen (inl refl) one_fits

can_fit_vm-exact_example :
    can_fit_vm metrics_one 7168 512 ≡ true
    ↔ (1073741824 + 7168 * 1048576 ≤ 8589934592)
      × ((metrics_one.disk_total_bytes ≡ 0) ⊎ (0 + 512 * 1048576 ≤ 107374182400))
can_fit_vm-exact_example =
    can_fit_vm-exact metrics_one 7168 512 (omega arith) (omega arith) (omega arith) (omega arith)

-- Two jobs of one tenant, with digests that part at the fourth byte.
allocate_vm_ipv6_collides_example :
    (allocate_vm_ipv6 (generate_vpc_prefix (1 ∷ 2 ∷ 3 ∷ 4 ∷ [])) (9 ∷ 8 ∷ 7 ∷ 6 ∷ [])
      ≡ allocate_vm_ipv6 (generate_vpc_prefix (1 ∷ 2 ∷ 3 ∷ 4 ∷ [])) (9 ∷ 8 ∷ 7 ∷ 5 ∷ []))
    ↔ (Agree 4 (1 ∷ 2 ∷ 3 ∷ 4 ∷ []) (1 ∷ 2 ∷ 3 ∷ 4 ∷ [])
        × Agree 3 (9 ∷ 8 ∷ 7 ∷ 6 ∷ []) (9 ∷ 8 ∷ 7 ∷ 5 ∷ []))
allocate_vm_ipv6_collides_example =
    allocate_vm_ipv6_collides (1 ∷ 2 ∷ 3 ∷ 4 ∷ []) (1 ∷ 2 ∷ 3 ∷ 4 ∷ []) (9 ∷ 8 ∷ 7 ∷ 6 ∷ [])
      (9 ∷ 8 ∷ 7 ∷ 5 ∷ [])

deploy_app_succeeds_example : is_ok (deploy_app calm params_web small).0 ≡ true
deploy_app_succeeds_example =
    deploy_app_succeeds calm (λ n. refl) params_web small worker_one (fresh_at 0) (inl refl)
      one_fits
