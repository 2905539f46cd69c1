-- ===== src/Disruption/Validation.antt =====
-- The checks against the budgets: `ValidateWithBudgetConstraints`, `v2HookCheck` and `legacyHookCheck`
-- (internal/controller/nodedisruption_controller.go).
use node_disruption_controll.Prelude.{
  ◌<>◌, Bool, true, false, not, ◌&&◌, List, [], ◌∷◌, any, contains, if◌then◌else◌,
}
use node_disruption_controll.Api.{NamespacedName, DisruptedBudgetStatus, NodeDisruption}
use node_disruption_controll.Api.Slice.{Slice, nil, of, items}
use node_disruption_controll.Api.Equality.{name_equal}
use node_disruption_controll.NodeSet.{new_node_set_from_string_list}
use node_disruption_controll.Metrics.{
  Metric, disruption_budget_rejected_total, disruption_budget_granted_total, inc,
}
use node_disruption_controll.Client.{Env}
use node_disruption_controll.Client.Monad.{Result, ok, err, Action, pure, handle, ◌>>=◌}
use node_disruption_controll.AppManager.{error_text}
use node_disruption_controll.Budget
use node_disruption_controll.Budget.{Budget}
use node_disruption_controll.Disruption.Settings.{Config, zero_status}

-- The first budget that refuses, or all those that are impacted.
pub data Selection : Type 0 where
  blocked : Budget → Selection
  impacted : List Budget → Selection

add_impacted : Budget → Selection → Selection
add_impacted b (blocked b') = blocked b'
add_impacted b (impacted bs) = impacted (b ∷ bs)

-- The current status of a budget, the zero status if there is none.
find_status : NamespacedName → List DisruptedBudgetStatus → DisruptedBudgetStatus
find_status ref [] = zero_status
find_status ref (st ∷ sts) = if name_equal st.reference ref then st else find_status ref sts

-- `budgetSupportsDisruptionType`
budget_supports_disruption_type : NodeDisruption → Budget → Bool
unfolding Budget.get_supported_disruption_types
budget_supports_disruption_type nd b =
    contains (Budget.get_supported_disruption_types b) nd.spec.type_name

abbrev blocked_status : NamespacedName → DisruptedBudgetStatus
blocked_status ref = record {
  reference = ref;
  reason = "No more disruption allowed";
  preparing = false;
  ok = false;
}

-- `statuses` is nil until a status is appended.
abbrev pub slice_of : {A : Type 0} → List A → Slice A
slice_of [] = nil
slice_of (x ∷ xs) = of (x ∷ xs)

module _ (env : Env) where
  -- The loop over all the budgets, up to its `break`.
  unfoldable pub select_budgets : NodeDisruption → env.sets.Set → List Budget → Selection
  unfolding add_impacted budget_supports_disruption_type
  select_budgets nd disrupted [] = impacted []
  select_budgets nd disrupted (b ∷ bs) =
      let rest = select_budgets nd disrupted bs in
      if not (budget_supports_disruption_type nd b)
      then rest
      else if not (Budget.is_impacted env b disrupted)
      then rest
      else if not (Budget.tolerate_disruption env b disrupted)
      then blocked b
      else add_impacted b rest

  -- `….WithLabelValues(ref.Namespace, ref.Name, ref.Kind, type).Inc()`
  pub count_budget : Metric → NamespacedName → NodeDisruption → env.World → env.World
  count_budget metric ref nd w =
      env.update_metric (inc metric (ref.namespace ∷ ref.name ∷ ref.kind ∷ nd.spec.type_name ∷ []))
        w

  -- What the answer to the prepare hook makes of the status.
  after_prepare :
      NamespacedName → NodeDisruption → Result (Unit {0}) → Action env.World DisruptedBudgetStatus
  unfolding count_budget error_text
  after_prepare ref nd (ok _) =
      pure (record { reference = ref; reason = ""; preparing = true; ok = false })
  after_prepare ref nd (err e) = λ w. (
    ok (record {
      reference = ref;
      reason = "cannot prepare disruption: " <> error_text env e;
      preparing = false;
      ok = false;
    }),
    count_budget disruption_budget_rejected_total ref nd w,
  )

  -- The end of `v2HookCheck`.
  grant_budget : NamespacedName → NodeDisruption → Action env.World DisruptedBudgetStatus
  unfolding count_budget
  grant_budget ref nd w = (
    ok (record { reference = ref; reason = ""; preparing = true; ok = true }),
    count_budget disruption_budget_granted_total ref nd w,
  )

  after_ready :
      NamespacedName → NodeDisruption → Result (Unit {0}) → Action env.World DisruptedBudgetStatus
  unfolding grant_budget error_text
  after_ready ref nd (ok _) = grant_budget ref nd
  after_ready ref nd (err e) = pure (record {
    reference = ref;
    reason = "not ready for disruption: " <> error_text env e;
    preparing = true;
    ok = false;
  })

  unfoldable pub v2_hook_check :
      Config
      → NodeDisruption
      → Budget
      → DisruptedBudgetStatus
      → Action env.World DisruptedBudgetStatus
  unfolding after_prepare after_ready grant_budget Budget.get_namespaced_name
  v2_hook_check config nd b current =
      let ref = Budget.get_namespaced_name b in
      if not current.ok && not current.preparing
      then handle (Budget.call_prepare_hook env b nd config.health_hook_timeout)
          (after_prepare ref nd)
      else if current.preparing
      then handle (Budget.call_ready_hook env b nd config.health_hook_timeout) (after_ready ref nd)
      else grant_budget ref nd

  after_health :
      NamespacedName → NodeDisruption → Result (Unit {0}) → Action env.World DisruptedBudgetStatus
  unfolding count_budget error_text
  after_health ref nd (ok _) = λ w. (
    ok (record { reference = ref; reason = ""; preparing = false; ok = true }),
    count_budget disruption_budget_granted_total ref nd w,
  )
  after_health ref nd (err e) = λ w. (
    ok (record {
      reference = ref;
      reason = "Unhealthy: " <> error_text env e;
      preparing = false;
      ok = false;
    }),
    count_budget disruption_budget_rejected_total ref nd w,
  )

  unfoldable pub legacy_hook_check :
      Config → NodeDisruption → Budget → Action env.World DisruptedBudgetStatus
  unfolding after_health Budget.get_namespaced_name
  legacy_hook_check config nd b =
      handle (Budget.call_health_hook env b nd config.health_hook_timeout)
        (after_health (Budget.get_namespaced_name b) nd)

  -- The body of the loop over the impacted budgets.
  unfoldable pub check_budget :
      Config
      → NodeDisruption
      → List DisruptedBudgetStatus
      → Budget
      → Action env.World DisruptedBudgetStatus
  unfolding find_status v2_hook_check legacy_hook_check Budget.v2_hooks_ready
  check_budget config nd current b =
      if Budget.v2_hooks_ready b
      then v2_hook_check config nd b (find_status (Budget.get_namespaced_name b) current)
      else legacy_hook_check config nd b

  unfoldable pub check_budgets :
      Config
      → NodeDisruption
      → List DisruptedBudgetStatus
      → List Budget
      → Action env.World (List DisruptedBudgetStatus)
  unfolding check_budget
  check_budgets config nd current [] = pure []
  check_budgets config nd current (b ∷ bs) = do
    status ← check_budget config nd current b
    statuses ← check_budgets config nd current bs
    pure (status ∷ statuses)

  -- The second half: what the first has selected decides whether hooks are called.
  unfoldable pub judge_selection :
      Config
      → NodeDisruption
      → List DisruptedBudgetStatus
      → Selection
      → Action env.World (Bool × Slice DisruptedBudgetStatus)
  unfolding check_budgets count_budget
  judge_selection config nd current (blocked b) = λ w.
      let ref = Budget.get_namespaced_name b in
      (
        ok (true, of (blocked_status ref ∷ [])),
        count_budget disruption_budget_rejected_total ref nd w,
      )
  judge_selection config nd current (impacted bs) = do
    statuses ← check_budgets config nd current bs
    pure (any (λ status. not status.ok) statuses, slice_of statuses)

  unfoldable pub validate_with_budget_constraints :
      Config
      → NodeDisruption
      → List Budget
      → List DisruptedBudgetStatus
      → Action env.World (Bool × Slice DisruptedBudgetStatus)
  unfolding select_budgets judge_selection
  validate_with_budget_constraints config nd budgets current =
      let disrupted = new_node_set_from_string_list env.sets (items nd.status.disrupted_nodes) in
      judge_selection config nd current (select_budgets nd disrupted budgets)
