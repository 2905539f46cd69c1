-- ===== src/Disruption/Termination.antt =====
-- The end of a disruption: `terminateAllImpactedBudgets` and `handleFinalizer`
-- (internal/controller/nodedisruption_controller.go).
use node_disruption_controll.Prelude.{
  String, Bool, true, false, not, ◌||◌, List, [], ◌∷◌, str_eq, ◌==◌, if◌then◌else◌,
}
use node_disruption_controll.Prelude.Int.{ℤ, pos}
use node_disruption_controll.Api.{
  DisruptedBudgetStatus, ApplicationDisruptionBudget, NodeDisruption,
}
use node_disruption_controll.Api.Slice.{items}
use node_disruption_controll.Client.{Env}
use node_disruption_controll.Client.Monad.{
  Error, not_found, failure, Result, ok, err, Action, pure, raise, handle, ◌>>=◌,
}
use node_disruption_controll.Budget.Application.{v2_hooks_ready}
use node_disruption_controll.Budget.Hooks.{call_terminate_hook}
use node_disruption_controll.Disruption.Settings.{finalizer_name}

-- Ten seconds.
abbrev terminate_timeout : ℤ
terminate_timeout = pos 10_000_000_000

abbrev is_err : {A : Type 0} → Result A → Bool
is_err (ok a) = false
is_err (err e) = true

-- `errors.IsNotFound`
abbrev pub is_not_found : Error → Bool
is_not_found (not_found text) = true
is_not_found _ = false

module _ (env : Env) where
  -- What follows the read of the budget: whether this one has failed.
  terminate_budget : NodeDisruption → Result ApplicationDisruptionBudget → Action env.World Bool
  unfolding v2_hooks_ready
  terminate_budget nd (err e) = pure (not (is_not_found e))
  terminate_budget nd (ok adb) =
      if not (v2_hooks_ready adb)
      then pure false
      else handle (call_terminate_hook env adb nd terminate_timeout) λ r. pure (is_err r)

  -- The loop's body.
  unfoldable pub terminate_status : NodeDisruption → DisruptedBudgetStatus → Action env.World Bool
  unfolding terminate_budget
  terminate_status nd status =
      if not status.preparing
      then pure false
      else if not (str_eq status.reference.kind "ApplicationDisruptionBudget")
      then pure false
      else handle (env.get_adb status.reference.namespace status.reference.name)
          (terminate_budget nd)

  -- A failure is noted, and the loop goes on.
  unfoldable pub terminate_statuses :
      NodeDisruption → List DisruptedBudgetStatus → Bool → Action env.World Bool
  unfolding terminate_status
  terminate_statuses nd [] failed = pure failed
  terminate_statuses nd (status ∷ statuses) failed = do
    failed' ← terminate_status nd status
    terminate_statuses nd statuses (failed || failed')

  unfoldable pub terminate_all_impacted_budgets : NodeDisruption → Action env.World (Unit {0})
  unfolding terminate_statuses
  terminate_all_impacted_budgets nd = do
    failed ← terminate_statuses nd (items nd.status.disrupted_disruption_budgets) false
    if failed then raise (failure "failed to terminate all budgets") else pure tt

  with_finalizers : NodeDisruption → List String → NodeDisruption
  with_finalizers nd finalizers = record nd { meta = record (nd.meta) { finalizers = finalizers } }

  -- The finalizer is removed, and the object written only if there was one.
  unfoldable pub drop_finalizer : NodeDisruption → List String × Bool → Action env.World Bool
  unfolding with_finalizers
  drop_finalizer nd (finalizers, removed) =
      if not removed
      then pure false
      else do stored ← env.update_node_disruption (with_finalizers nd finalizers); pure false

  -- `handleFinalizer`: whether the reconciliation goes on.
  unfoldable pub handle_finalizer : NodeDisruption → Action env.World Bool
  unfolding terminate_all_impacted_budgets drop_finalizer
  handle_finalizer nd =
      if nd.meta.deletion_timestamp == 0
      then (if env.contains_finalizer nd.meta.finalizers finalizer_name then pure true else do
        stored ←
            env.update_node_disruption
              (with_finalizers nd (env.add_finalizer nd.meta.finalizers finalizer_name))
        pure false)
      else if not (env.contains_finalizer nd.meta.finalizers finalizer_name)
      then pure false
      else do
        done ← terminate_all_impacted_budgets nd
        drop_finalizer nd (env.remove_finalizer nd.meta.finalizers finalizer_name)
