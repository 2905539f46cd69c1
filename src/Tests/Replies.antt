-- ===== src/Tests/Replies.antt =====
-- Hooks, terminations and stored statuses on concrete replies.
use node_disruption_controll.Prelude.{
  ◌≤◌, ◌<◌, String, true, false, [], ◌∷◌, ◌≡◌, inr, refl, str_eq,
}
use node_disruption_controll.Prelude.Int.{pos}
use node_disruption_controll.Api.{
  pending, NodeDisruption, DisruptedBudgetStatus, ApplicationDisruptionBudget,
}
use node_disruption_controll.Metrics.{
  disruption_budget_check_prepare_hook_status_code_total, disruption_budget_granted_total,
}
use node_disruption_controll.Client.{Url, Response, HookBody}
use node_disruption_controll.Client.Monad.{Error, Result, ok, err}
use node_disruption_controll.AppManager.{prepare_application, check_readiness, terminate_disruption}
use node_disruption_controll.Budget
use node_disruption_controll.Budget.{Budget, application}
use node_disruption_controll.Budget.Hooks.{
  hook_body, count_status_code, call_prepare_hook, call_health_hook,
}
use node_disruption_controll.Budget.Answers.{
  call_prepare_hook-refused, call_prepare_hook-200, call_health_hook-2XX,
}
use node_disruption_controll.Disruption.Validation.{count_budget, v2_hook_check, legacy_hook_check}
use node_disruption_controll.Disruption.Hooks.{v2_hook_check-approved, legacy-v2_hook_check}
use node_disruption_controll.Tests.World.{Cluster, Journal, start, env_of}
use node_disruption_controll.Tests.Fixtures.{disruption, budget, cluster, config}

abbrev second : NodeDisruption
second = disruption "second" pending ("n2" ∷ [])

-- A budget with a base path, and the cluster that has it.
abbrev hooked : ApplicationDisruptionBudget
hooked = budget "db" 2 "https://db"

abbrev hooked_cluster : Cluster
hooked_cluster = record cluster { adbs = hooked ∷ [] }

-- The same with a server that is not ready: 425 with no `Retry-After`.
abbrev early_cluster : Cluster
early_cluster = record hooked_cluster { hook_status = 425 }

abbrev get {ℓ} : {A : Type ℓ} → A → Result A → A
get a (ok x) = x
get a (err e) = a

abbrev being_prepared : DisruptedBudgetStatus
being_prepared = record {
  reference = Budget.get_namespaced_name (application hooked);
  reason = "";
  preparing = true;
  ok = false;
}

ready_run : Result DisruptedBudgetStatus × Journal
unfolding v2_hook_check Budget.call_ready_hook Budget.Hooks.call_ready_hook check_readiness str_eq
ready_run =
    v2_hook_check (env_of hooked_cluster) config second (application hooked) being_prepared start

abbrev approved : DisruptedBudgetStatus
approved = get being_prepared ready_run.0

ready_run-ok : ready_run ≡ (ok approved, ready_run.1)
unfolding ready_run
ready_run-ok = refl

v2_hook_check-approved_example :
    (true ≡ true)
    × ((after : Journal) × (Budget.call_ready_hook
            (env_of hooked_cluster)
            (application hooked)
            second
            (pos 60)
            start
          ≡ (ok tt, after))
        × (ready_run.1
            ≡ count_budget
                (env_of hooked_cluster)
                disruption_budget_granted_total
                (Budget.get_namespaced_name (application hooked))
                second
                after))
unfolding ready_run
v2_hook_check-approved_example =
    v2_hook_check-approved (env_of hooked_cluster) config second (application hooked) being_prepared
      start (record { prepared = λ h. refl }) ready_run-ok refl

-- The older hook approves at once where the budget names none.
legacy_run : Result DisruptedBudgetStatus × Journal
unfolding legacy_hook_check Budget.call_health_hook call_health_hook str_eq
legacy_run = legacy_hook_check (env_of hooked_cluster) config second (application hooked) start

legacy_run-ok : legacy_run ≡ (ok (get being_prepared legacy_run.0), legacy_run.1)
unfolding legacy_run
legacy_run-ok = refl

legacy-v2_hook_check_example :
    v2_hook_check
      (env_of hooked_cluster)
      config
      second
      (application hooked)
      (get being_prepared legacy_run.0)
      start
    ≡ (
      ok (record {
        reference = Budget.get_namespaced_name (application hooked);
        reason = "";
        preparing = true;
        ok = true;
      }),
      count_budget
          (env_of hooked_cluster)
          disruption_budget_granted_total
          (Budget.get_namespaced_name (application hooked))
          second
          start,
    )
unfolding legacy_run
legacy-v2_hook_check_example =
    legacy-v2_hook_check (env_of hooked_cluster) config second (application hooked) start start
      legacy_run-ok refl

call_prepare_hook-refused_example :
    (e : Error) × (call_prepare_hook (env_of early_cluster) hooked second (pos 60) start ≡ (
      err e,
      count_status_code
          (env_of early_cluster)
          disruption_budget_check_prepare_hook_status_code_total
          hooked
          200
          (record start { requests = "/prepare" ∷ [] }),
    ))
unfolding str_eq
call_prepare_hook-refused_example =
    call_prepare_hook-refused (env_of early_cluster) hooked second (pos 60) start refl refl
      (inr (refl, refl))

prepare_run : Result (Unit {0}) × Journal
unfolding call_prepare_hook prepare_application
prepare_run = call_prepare_hook (env_of hooked_cluster) hooked second (pos 60) start

prepare_run-ok : prepare_run ≡ (ok tt, prepare_run.1)
unfolding prepare_run
prepare_run-ok = refl

call_prepare_hook-200_example :
    (url : Url) × ((env_of hooked_cluster).parse_url "https://db" ≡ ok url)
    × ((response : Response) × (between : Journal) × ((env_of hooked_cluster).submit url "/prepare"
            (hook_body (env_of hooked_cluster) hooked second)
            (pos 60)
            start
          ≡ (ok response, between))
        × (response.status_code ≡ 200))
unfolding prepare_run
call_prepare_hook-200_example =
    call_prepare_hook-200 (env_of hooked_cluster) hooked second (pos 60) start prepare_run-ok

abbrev db_url : Url
db_url = record { host = "db"; path = ""; scheme = "https" }

abbrev db_body : HookBody
db_body = hook_body (env_of hooked_cluster) hooked second

terminate_run : Result (Unit {0}) × Journal
unfolding terminate_disruption
terminate_run = terminate_disruption (env_of hooked_cluster) db_url db_body (pos 60) start

terminate_run-ok : terminate_run ≡ (ok tt, terminate_run.1)
unfolding terminate_run
terminate_run-ok = refl

abbrev health_hooked : ApplicationDisruptionBudget
health_hooked = record hooked {
  spec = record (hooked.spec) { health_hook = record { ca_bundle = ""; url = "https://health" } };
}

health_run : Result (Unit {0}) × Journal
unfolding call_health_hook str_eq
health_run = call_health_hook (env_of hooked_cluster) health_hooked second (pos 60) start

health_run-ok : health_run ≡ (ok tt, health_run.1)
unfolding health_run
health_run-ok = refl

named : str_eq "https://health" "" ≡ false
unfolding str_eq
named = refl

call_health_hook-2XX_example :
    (body : String) × ((env_of hooked_cluster).marshal second ≡ ok body)
    × ((response : Response) × (between : Journal) × ((env_of hooked_cluster).post "https://health"
            body
            (pos 60)
            start
          ≡ (ok response, between))
        × (200 ≤ response.status_code)
        × (response.status_code < 300))
unfolding health_run
call_health_hook-2XX_example =
    call_health_hook-2XX (env_of hooked_cluster) health_hooked second (pos 60) start named
      health_run-ok
