-- ===== src/Controllers/Application.antt =====
-- `ApplicationDisruptionBudgetReconciler.Reconcile` of
-- internal/controller/applicationdisruptionbudget_controller.go.
use node_disruption_controll.Prelude.{String, Bool, ◌&&◌, not, List, length, ◌==◌, if◌then◌else◌}
use node_disruption_controll.Api.{NamespacedName, ApplicationDisruptionBudget}
use node_disruption_controll.Api.Equality.{budget_equal}
use node_disruption_controll.Metrics.Budgets.{update_adb_metrics, prune_adb_metrics}
use node_disruption_controll.Client.{Env}
use node_disruption_controll.Client.Monad.{Result, ok, err, Action, pure, raise, handle, ◌>>=◌}
use node_disruption_controll.Budget.Application.{sync}
use node_disruption_controll.Disruption.{update_metrics}
use node_disruption_controll.Disruption.Termination.{is_not_found}

-- `req.NamespacedName` with the kind.
abbrev pub request_ref : String → String → NamespacedName
request_ref namespace name = record {
  namespace = namespace;
  name = name;
  kind = "ApplicationDisruptionBudget";
}

-- No types of its own, and there are default types.
unfoldable pub wants_defaults : List String → ApplicationDisruptionBudget → Bool
wants_defaults defaults adb =
    (length adb.spec.supported_node_disruption_types == 0) && not (length defaults == 0)

abbrev pub with_types : List String → ApplicationDisruptionBudget → ApplicationDisruptionBudget
with_types defaults adb = record adb {
  spec = record (adb.spec) { supported_node_disruption_types = defaults };
}

module _ (env : Env) where
  -- The default types are stored in the budget; the object that is used then is the stored one.
  unfoldable pub apply_defaults :
      List String → ApplicationDisruptionBudget → Action env.World ApplicationDisruptionBudget
  unfolding wants_defaults
  apply_defaults defaults adb =
      if wants_defaults defaults adb then env.update_adb (with_types defaults adb) else pure adb

  -- A status that has not changed is not written.
  unfoldable pub store_status :
      ApplicationDisruptionBudget → ApplicationDisruptionBudget → Action env.World (Unit {0})
  store_status adb adb' =
      if budget_equal adb'.status adb.status then pure tt else env.update_adb_status adb'

  unfoldable pub reconcile_found :
      List String → NamespacedName → ApplicationDisruptionBudget → Action env.World (Unit {0})
  unfolding apply_defaults update_metrics update_adb_metrics store_status
  reconcile_found defaults ref adb = do
    stored ← apply_defaults defaults adb
    done ← update_metrics env (update_adb_metrics ref stored)
    synced ← sync env stored
    store_status stored synced

  -- What follows the read of the budget.
  unfoldable pub reconcile_read :
      List String
      → NamespacedName
      → Result ApplicationDisruptionBudget
      → Action env.World (Unit {0})
  unfolding reconcile_found prune_adb_metrics
  reconcile_read defaults ref (err e) =
      if is_not_found e then update_metrics env (prune_adb_metrics ref) else raise e
  reconcile_read defaults ref (ok adb) = reconcile_found defaults ref adb

  pub reconcile : List String → String → String → Action env.World (Unit {0})
  unfolding reconcile_read
  reconcile defaults namespace name =
      handle (env.get_adb namespace name) (reconcile_read defaults (request_ref namespace name))
