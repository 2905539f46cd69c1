-- ===== src/Budget.antt =====
-- The budgets of internal/controller: the interface of budget.go over its two implementations, and the
-- read of all the budgets of the cluster.
pub mod Disruptions
pub mod Application
pub mod Pool
pub mod Hooks
pub mod Counting
pub mod Allowance
pub mod Answers
pub mod Synced
use node_disruption_controll.Prelude.{ℕ, String, Bool, false, none, List, [], ◌∷◌, ◌++◌, map}
use node_disruption_controll.Prelude.Int.{ℤ}
use node_disruption_controll.Api.{
  NamespacedName, NodeDisruption, ApplicationDisruptionBudget, NodeDisruptionBudget,
}
use node_disruption_controll.Client.{Env}
use node_disruption_controll.Client.Monad.{Action, pure, ◌>>=◌}
use Hooks

-- The two types that implement `Budget`.
pub data Budget : Type 0 where
  application : ApplicationDisruptionBudget → Budget
  pool : NodeDisruptionBudget → Budget

unfoldable pub get_namespaced_name : Budget → NamespacedName
unfolding Application.get_namespaced_name Pool.get_namespaced_name
get_namespaced_name (application adb) = Application.get_namespaced_name adb
get_namespaced_name (pool ndb) = Pool.get_namespaced_name ndb

unfoldable pub get_supported_disruption_types : Budget → List String
get_supported_disruption_types (application adb) = adb.spec.supported_node_disruption_types
get_supported_disruption_types (pool ndb) = ndb.spec.supported_node_disruption_types

unfoldable pub v2_hooks_ready : Budget → Bool
unfolding Application.v2_hooks_ready
v2_hooks_ready (application adb) = Application.v2_hooks_ready adb
v2_hooks_ready (pool ndb) = false

module _ (env : Env) where
  unfoldable pub sync : Budget → Action env.World Budget
  unfolding Application.sync Pool.sync
  sync (application adb) = do adb' ← Application.sync env adb; pure (application adb')
  sync (pool ndb) = do ndb' ← Pool.sync env ndb; pure (pool ndb')

  unfoldable pub is_impacted : Budget → env.sets.Set → Bool
  unfolding Application.is_impacted Pool.is_impacted
  is_impacted (application adb) disrupted = Application.is_impacted env adb disrupted
  is_impacted (pool ndb) disrupted = Pool.is_impacted env ndb disrupted

  unfoldable pub tolerate_disruption : Budget → env.sets.Set → Bool
  unfolding Application.tolerate_disruption Pool.tolerate_disruption
  tolerate_disruption (application adb) disrupted = Application.tolerate_disruption adb
  tolerate_disruption (pool ndb) disrupted = Pool.tolerate_disruption env ndb disrupted

  -- A pool's budget has no hooks: its calls succeed at once.
  unfoldable pub call_prepare_hook : Budget → NodeDisruption → ℤ → Action env.World (Unit {0})
  call_prepare_hook (application adb) nd timeout = Hooks.call_prepare_hook env adb nd timeout
  call_prepare_hook (pool ndb) nd timeout = pure tt

  unfoldable pub call_ready_hook : Budget → NodeDisruption → ℤ → Action env.World (Unit {0})
  call_ready_hook (application adb) nd timeout = Hooks.call_ready_hook env adb nd timeout
  call_ready_hook (pool ndb) nd timeout = pure tt

  unfoldable pub call_health_hook : Budget → NodeDisruption → ℤ → Action env.World (Unit {0})
  call_health_hook (application adb) nd timeout = Hooks.call_health_hook env adb nd timeout
  call_health_hook (pool ndb) nd timeout = pure tt

  -- `UpdateStatus`
  update_status : Budget → Action env.World (Unit {0})
  update_status (application adb) = env.update_adb_status adb
  update_status (pool ndb) = env.update_ndb_status ndb

  -- The loop that synchronises the budgets.
  unfoldable pub sync_all : List Budget → Action env.World (List Budget)
  unfolding sync
  sync_all [] = pure []
  sync_all (b ∷ bs) = do b' ← sync b; bs' ← sync_all bs; pure (b' ∷ bs')

  -- `GetAllBudgetsInSync`
  unfoldable pub get_all_budgets_in_sync : Action env.World (List Budget)
  unfolding sync_all
  get_all_budgets_in_sync = do
    adbs ← env.list_adbs none
    ndbs ← env.list_ndbs none
    sync_all (map application adbs ++ map pool ndbs)
