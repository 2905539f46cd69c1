-- ===== src/Disruption.antt =====
-- The reconciler of node disruptions, `NodeDisruptionReconciler` of
-- internal/controller/nodedisruption_controller.go.
pub mod Settings
pub mod Constraints
pub mod Refusals
pub mod Validation
pub mod Selection
pub mod Answers
pub mod Hooks
pub mod Transition
pub mod Granting
pub mod Capacity
pub mod States
pub mod History
pub mod Termination
pub mod Finalizer
pub mod Reconciling
pub mod Decisions
pub mod Approval
pub mod Progress
pub mod Waiting
use node_disruption_controll.Prelude.{
  ℕ, String, Bool, true, false, not, List, [], ◌∷◌, ltb, if◌then◌else◌,
}
use node_disruption_controll.Prelude.Int.{ℤ, pos, ◌-ℤ◌, saturate64}
use node_disruption_controll.Api.{NodeDisruption}
use node_disruption_controll.Api.Equality.{disruption_status_equal}
use node_disruption_controll.Metrics.{MetricUpdate}
use node_disruption_controll.Metrics.Updates.{
  update_node_disruption_metrics, prune_node_disruption_metrics,
}
use node_disruption_controll.Client.{Env}
use node_disruption_controll.Client.Monad.{
  Result, ok, err, Action, pure, raise, handle, ◌>>=◌, ◌>>◌,
}
use Settings.{Config, read_clock}
use Transition.{reconcile_single}
use Termination.{is_not_found, handle_finalizer}

-- `ctrl.Result`: the time after which the object is looked at again, 0 for none.
abbrev requeue_none : ℤ
requeue_none = pos 0

module _ (env : Env) where
  unfoldable pub update_metrics : List MetricUpdate → Action env.World (Unit {0})
  update_metrics [] w = (ok tt, w)
  update_metrics (u ∷ us) w = update_metrics us (env.update_metric u w)

  -- The answer to the write of the status: a disruption that is gone needs none.
  pub after_status_update : Result (Unit {0}) → Action env.World ℤ
  after_status_update (ok _) = pure requeue_none
  after_status_update (err e) = if is_not_found e then pure requeue_none else raise e

  -- The end of `Reconcile`: an error of the single reconciler is dropped, and a status that has not
  -- changed is not written.
  unfoldable pub store_status : NodeDisruption → Result NodeDisruption → Action env.World ℤ
  unfolding after_status_update
  store_status nd (err e) = pure requeue_none
  store_status nd (ok nd') =
      if disruption_status_equal nd.status nd'.status
      then pure requeue_none
      else handle (env.update_node_disruption_status nd') after_status_update

  -- `Reconcile` from where the finalizer is in place. `time.Until` saturates.
  reconcile_live : Config → NodeDisruption → Action env.World ℤ
  unfolding store_status update_node_disruption_metrics update_metrics
  reconcile_live config nd = do
    done ← update_metrics (update_node_disruption_metrics nd)
    now ← read_clock env
    if ltb now nd.status.next_retry_date
        then (do
          later ← read_clock env
          pure (saturate64 (pos nd.status.next_retry_date -ℤ pos later)))
        else handle (reconcile_single env config nd) (store_status nd)

  -- What follows the read of the disruption.
  unfoldable pub reconcile_read : Config → String → Result NodeDisruption → Action env.World ℤ
  unfolding reconcile_live handle_finalizer prune_node_disruption_metrics
  reconcile_read config name (err e) =
      if is_not_found e
      then update_metrics (prune_node_disruption_metrics name) >> pure requeue_none
      else raise e
  reconcile_read config name (ok nd) = do
    continue_reconcile ← handle_finalizer env nd
    if continue_reconcile then reconcile_live config nd else pure requeue_none

  -- `Reconcile`
  unfoldable pub reconcile : Config → String → Action env.World ℤ
  unfolding reconcile_read
  reconcile config name = handle (env.get_node_disruption name) (reconcile_read config name)
