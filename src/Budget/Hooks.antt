-- ===== src/Budget/Hooks.antt =====
-- The hooks of an application's budget: the prepare, ready and terminate requests to its application
-- manager, and the older health hook.
use node_disruption_controll.Prelude.{
  ℕ, String, ◌<>◌, ◌&&◌, List, [], ◌∷◌, str_eq, ltb, leb, itoa, if◌then◌else◌,
}
use node_disruption_controll.Prelude.Int.{ℤ}
use node_disruption_controll.Prelude.Float.{duration_seconds}
use node_disruption_controll.Api.{NodeDisruption, ApplicationDisruptionBudget}
use node_disruption_controll.Api.Slice.{items}
use node_disruption_controll.NodeSet.{new_node_set_from_string_list, node_set_to_string_list}
use node_disruption_controll.Metrics.{
  Metric, disruption_budget_check_health_hook_error_total,
  disruption_budget_check_health_hook_status_code_total,
  disruption_budget_check_prepare_hook_status_code_total,
  disruption_budget_check_ready_hook_status_code_total,
  disruption_budget_check_terminate_hook_status_code_total, inc,
}
use node_disruption_controll.Client.{Env, Response, HookBody}
use node_disruption_controll.Client.Monad.{
  retry_later, api_error, failure, Result, ok, err, Action, pure, lift, handle, ◌>>=◌,
}
use node_disruption_controll.AppManager.{
  show_int, prepare_application, check_readiness, terminate_disruption,
}

-- A look-up in the labels; a missing key, and a missing map, give the empty text.
pub label : List (String × String) → String → String
label [] key = ""
label ((k, v) ∷ labels) key = if str_eq k key then v else label labels key

-- The code that the deferred call counts: 200, but for an error that is a `runtime.APIError`.
unfoldable pub counted_status_code : Result (Unit {0}) → ℕ
counted_status_code (err (api_error name code)) = code
counted_status_code _ = 200

-- What a request's result becomes: a 425 gets a text of its own.
unfoldable pub hook_result : Result (Unit {0}) → Result (Unit {0})
hook_result (err (retry_later hook delay)) =
    err (failure ("retry later, in " <> (show_int delay <> " seconds")))
hook_result (ok u) = ok u
hook_result (err e) = err e

-- The label values of a budget's metrics.
abbrev budget_labels : ApplicationDisruptionBudget → List String
budget_labels adb = adb.meta.namespace ∷ adb.meta.name ∷ adb.meta.kind ∷ []

module _ (env : Env) where
  -- `hookBody`: the nodes are those that the budget watches and the disruption disrupts.
  pub hook_body : ApplicationDisruptionBudget → NodeDisruption → HookBody
  unfolding label
  hook_body adb nd =
      let watched = new_node_set_from_string_list env.sets (items adb.status.watched_nodes) in
      let disrupted = new_node_set_from_string_list env.sets (items nd.status.disrupted_nodes) in
      record {
        uid = nd.meta.uid;
        name = nd.meta.name;
        creation_date = nd.meta.creation_timestamp;
        start_date = nd.spec.start_date;
        duration = duration_seconds nd.spec.duration;
        deadline_date = nd.spec.retry.deadline;
        created_by = label nd.meta.labels "app.kubernetes.io/created-by";
        type_name = nd.spec.type_name;
        nodes = node_set_to_string_list env.sets (env.sets.intersection watched disrupted);
      }

  -- The deferred count of a hook's status code.
  pub count_status_code : Metric → ApplicationDisruptionBudget → ℕ → env.World → env.World
  count_status_code metric adb code w =
      env.update_metric
        (inc metric (adb.meta.namespace ∷ adb.meta.name ∷ adb.meta.kind ∷ itoa code ∷ [])) w

  unfoldable pub call_prepare_hook :
      ApplicationDisruptionBudget → NodeDisruption → ℤ → Action env.World (Unit {0})
  unfolding hook_body count_status_code counted_status_code hook_result
  call_prepare_hook adb nd timeout = do
    url ← lift (env.parse_url adb.spec.hook_v2_base_path.url)
    handle (prepare_application env url (hook_body adb nd) timeout) λ r w. (
      hook_result r,
      count_status_code disruption_budget_check_prepare_hook_status_code_total adb
          (counted_status_code r) w,
    )

  unfoldable pub call_ready_hook :
      ApplicationDisruptionBudget → NodeDisruption → ℤ → Action env.World (Unit {0})
  unfolding hook_body count_status_code counted_status_code hook_result
  call_ready_hook adb nd timeout = do
    url ← lift (env.parse_url adb.spec.hook_v2_base_path.url)
    handle (check_readiness env url (hook_body adb nd) timeout) λ r w. (
      hook_result r,
      count_status_code disruption_budget_check_ready_hook_status_code_total adb
          (counted_status_code r) w,
    )

  unfoldable pub call_terminate_hook :
      ApplicationDisruptionBudget → NodeDisruption → ℤ → Action env.World (Unit {0})
  unfolding hook_body count_status_code counted_status_code
  call_terminate_hook adb nd timeout = do
    url ← lift (env.parse_url adb.spec.hook_v2_base_path.url)
    handle (terminate_disruption env url (hook_body adb nd) timeout) λ r w. (
      r,
      count_status_code disruption_budget_check_terminate_hook_status_code_total adb
          (counted_status_code r) w,
    )

  -- A failure of the health hook's request that is counted as an error.
  unfoldable pub or_count_error :
      {A : Type 0} → ApplicationDisruptionBudget → Action env.World A → Action env.World A
  or_count_error adb m = handle m λ r w. elim r [
    | ok a ↦ (ok a, w)
    | err e ↦ (
      err e,
      env.update_metric (inc disruption_budget_check_health_hook_error_total (budget_labels adb)) w,
    )
  ]

  -- The end of the health hook: any 2XX will do.
  unfoldable pub judge_health :
      ApplicationDisruptionBudget → Response → String → Action env.World (Unit {0})
  unfolding count_status_code
  judge_health adb response body w = (
    if leb 200 response.status_code && ltb response.status_code 300
        then ok tt
        else err (failure ("http server responded with non 2XX status code: " <> body)),
    count_status_code disruption_budget_check_health_hook_status_code_total adb response.status_code
        w,
  )

  -- `CallHealthHook`
  unfoldable pub call_health_hook :
      ApplicationDisruptionBudget → NodeDisruption → ℤ → Action env.World (Unit {0})
  unfolding or_count_error judge_health
  call_health_hook adb nd timeout =
      let url = adb.spec.health_hook.url in
      if str_eq url "" then pure tt else do
        body ← lift (env.marshal nd)
        request ← or_count_error adb (lift (env.new_post_request url))
        response ← or_count_error adb (env.post url body timeout)
        reply ← or_count_error adb (env.read_body response)
        judge_health adb response reply
