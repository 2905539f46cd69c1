-- ===== src/Disruption/Transition.antt =====
-- The states of a disruption: `Sync`, `tryTransitionToGranted`, `TryTransitionState` and `Reconcile` of
-- `SingleNodeDisruptionReconciler` (internal/controller/nodedisruption_controller.go). The methods
-- change the disruption that they hold; here each returns it.
use node_disruption_controll.Prelude.{
  ℕ, Bool, true, false, not, List, [], ◌∷◌, any, ◌==◌, ltb, if◌then◌else◌,
}
use node_disruption_controll.Api.{
  NodeDisruptionState, unknown, pending, granted, rejected, DisruptedBudgetStatus, NodeDisruption,
}
use node_disruption_controll.Api.Slice.{Slice, of, items}
use node_disruption_controll.NodeSet.{node_set_to_string_list}
use node_disruption_controll.Metrics.{
  node_disruption_granted_total, node_disruption_rejected_total, inc,
}
use node_disruption_controll.Client.{Env}
use node_disruption_controll.Client.Monad.{ok, Action, pure, ◌>>=◌}
use node_disruption_controll.Resolver.{get_node_from_node_selector}
use node_disruption_controll.Budget
use node_disruption_controll.Disruption.Settings.{
  Config, read_clock, is_after_deadline, get_retry_date,
}
use node_disruption_controll.Disruption.Constraints.{validate_with_internal_constraints}
use node_disruption_controll.Disruption.Validation.{validate_with_budget_constraints}

module _ (env : Env) where
  -- The choice of the new state and of the next date, once it is known whether a check failed.
  unfoldable pub decide :
      NodeDisruption
      → ℕ
      → Bool
      → List DisruptedBudgetStatus
      → Action env.World (NodeDisruptionState × ℕ)
  unfolding is_after_deadline
  decide nd next_retry_date false statuses =
      let not_before = nd.spec.do_not_grant_before in
      if not_before == 0 then pure (granted, next_retry_date) else do
        now ← read_clock env
        pure (if ltb now not_before then (pending, not_before) else (granted, next_retry_date))
  decide nd next_retry_date true statuses =
      if not (next_retry_date == 0)
      then pure (pending, next_retry_date)
      else if any (λ (s : DisruptedBudgetStatus). s.preparing) statuses
      then (do
        late ← is_after_deadline env nd.spec.retry
        pure (if late then rejected else pending, next_retry_date))
      else pure (rejected, next_retry_date)

  -- Both validations: the budgets are asked only if the internal constraints hold.
  unfoldable pub validate :
      Config
      → NodeDisruption
      → List Budget.Budget
      → Action env.World (Bool × Slice DisruptedBudgetStatus)
  unfolding validate_with_internal_constraints validate_with_budget_constraints
  validate config nd budgets = do
    (failed, statuses) ← validate_with_internal_constraints env config nd
    if failed
        then pure (true, statuses)
        else validate_with_budget_constraints env config nd budgets
            (items nd.status.disrupted_disruption_budgets)

  -- The three assignments at the end.
  unfoldable pub settle :
      NodeDisruption → Slice DisruptedBudgetStatus → NodeDisruptionState × ℕ → NodeDisruption
  settle nd statuses (state, next) = record nd {
    status = record {
      state = state;
      disrupted_disruption_budgets = statuses;
      disrupted_nodes = nd.status.disrupted_nodes;
      next_retry_date = next;
    };
  }

  -- What follows the validations.
  unfoldable pub conclude :
      NodeDisruption → ℕ → Bool × Slice DisruptedBudgetStatus → Action env.World NodeDisruption
  unfolding decide settle
  conclude nd next_retry_date (failed, statuses) = do
    chosen ← decide nd next_retry_date failed (items statuses)
    pure (settle nd statuses chosen)

  unfoldable pub try_transition_to_granted :
      Config → NodeDisruption → Action env.World NodeDisruption
  unfolding get_retry_date validate conclude
  try_transition_to_granted config nd = do
    next_retry_date ← get_retry_date env config nd
    budgets ← Budget.get_all_budgets_in_sync env
    checked ← validate config nd budgets
    conclude nd next_retry_date checked

  -- The counters of final states.
  count_final_state : NodeDisruptionState → NodeDisruption → env.World → env.World
  count_final_state granted nd w =
      env.update_metric (inc node_disruption_granted_total (nd.spec.type_name ∷ [])) w
  count_final_state rejected nd w =
      env.update_metric (inc node_disruption_rejected_total (nd.spec.type_name ∷ [])) w
  count_final_state _ nd w = w

  -- `TryTransitionState`, by the current state.
  unfoldable pub transition_from :
      NodeDisruptionState → Config → NodeDisruption → Action env.World NodeDisruption
  unfolding try_transition_to_granted count_final_state
  transition_from unknown config nd =
      pure (record nd { status = record (nd.status) { state = pending } })
  transition_from pending config nd = do
    nd' ← try_transition_to_granted config nd
    λ w. (ok nd', count_final_state nd'.status.state nd' w)
  transition_from granted config nd = pure nd
  transition_from rejected config nd = pure nd

  unfoldable pub try_transition_state : Config → NodeDisruption → Action env.World NodeDisruption
  unfolding transition_from
  try_transition_state config nd = transition_from nd.status.state config nd

  unfoldable pub sync : NodeDisruption → Action env.World NodeDisruption
  sync nd = do
    nodes ← get_node_from_node_selector env nd.spec.node_selector
    pure (record nd {
      status = record (nd.status) { disrupted_nodes = of (node_set_to_string_list env.sets nodes) };
    })

  -- `SingleNodeDisruptionReconciler.Reconcile`
  unfoldable pub reconcile_single : Config → NodeDisruption → Action env.World NodeDisruption
  unfolding sync try_transition_state
  reconcile_single config nd = do nd' ← sync nd; try_transition_state config nd'
