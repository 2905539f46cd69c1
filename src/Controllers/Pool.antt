-- ===== src/Controllers/Pool.antt =====
-- `NodeDisruptionBudgetReconciler.Reconcile` of
-- internal/controller/nodedisruptionbudget_controller.go.
use node_disruption_controll.Prelude.{String, Bool, ◌&&◌, not, List, length, ◌==◌, if◌then◌else◌}
use node_disruption_controll.Api.{NamespacedName, NodeDisruptionBudget}
use node_disruption_controll.Api.Equality.{budget_equal}
use node_disruption_controll.Metrics.Budgets.{update_ndb_metrics, prune_ndb_metrics}
use node_disruption_controll.Client.{Env}
use node_disruption_controll.Client.Monad.{Result, ok, err, Action, pure, raise, handle, ◌>>=◌}
use node_disruption_controll.Budget.Pool.{sync}
use node_disruption_controll.Disruption.{update_metrics}
use node_disruption_controll.Disruption.Termination.{is_not_found}

-- `req.NamespacedName` with the kind.
abbrev pub request_ref : String → String → NamespacedName
request_ref namespace name = record {
  namespace = namespace;
  name = name;
  kind = "NodeDisruptionBudget";
}

-- No types of its own, and there are default types.
unfoldable pub wants_defaults : List String → NodeDisruptionBudget → Bool
wants_defaults defaults ndb =
    (length ndb.spec.supported_node_disruption_types == 0) && not (length defaults == 0)

abbrev pub with_types : List String → NodeDisruptionBudget → NodeDisruptionBudget
with_types defaults ndb = record ndb {
  spec = record (ndb.spec) { supported_node_disruption_types = defaults };
}

module _ (env : Env) where
  -- The default types are stored in the budget; the object that is used then is the stored one.
  unfoldable pub apply_defaults :
      List String → NodeDisruptionBudget → Action env.World NodeDisruptionBudget
  unfolding wants_defaults
  apply_defaults defaults ndb =
      if wants_defaults defaults ndb then env.update_ndb (with_types defaults ndb) else pure ndb

  -- A status that has not changed is not written.
  unfoldable pub store_status :
      NodeDisruptionBudget → NodeDisruptionBudget → Action env.World (Unit {0})
  store_status ndb ndb' =
      if budget_equal ndb'.status ndb.status then pure tt else env.update_ndb_status ndb'

  unfoldable pub reconcile_found :
      List String → NamespacedName → NodeDisruptionBudget → Action env.World (Unit {0})
  unfolding apply_defaults update_metrics update_ndb_metrics store_status
  reconcile_found defaults ref ndb = do
    stored ← apply_defaults defaults ndb
    done ← update_metrics env (update_ndb_metrics ref stored)
    synced ← sync env stored
    store_status stored synced

  -- What follows the read of the budget.
  unfoldable pub reconcile_read :
      List String → NamespacedName → Result NodeDisruptionBudget → Action env.World (Unit {0})
  unfolding reconcile_found prune_ndb_metrics
  reconcile_read defaults ref (err e) =
      if is_not_found e then update_metrics env (prune_ndb_metrics ref) else raise e
  reconcile_read defaults ref (ok ndb) = reconcile_found defaults ref ndb

  pub reconcile : List String → String → String → Action env.World (Unit {0})
  unfolding reconcile_read
  reconcile defaults namespace name =
      handle (env.get_ndb namespace name) (reconcile_read defaults (request_ref namespace name))
