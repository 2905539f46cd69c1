-- ===== src/Budget/Application.antt =====
-- `ApplicationDisruptionBudgetResolver` of internal/controller/applicationdisruptionbudget_controller.go,
-- but for its hooks.
use node_disruption_controll.Prelude.{ℕ, String, Bool, not, List, [], str_eq}
use node_disruption_controll.Prelude.Int.{pos, leb_ℤ, sub64}
use node_disruption_controll.Api.{NamespacedName, Disruption, ApplicationDisruptionBudget}
use node_disruption_controll.Api.Slice.{of, items}
use node_disruption_controll.NodeSet.{
  new_node_set_from_string_list, node_set_to_string_list, overlaps,
}
use node_disruption_controll.Client.{Env}
use node_disruption_controll.Client.Monad.{Action, pure, ◌>>=◌}
use node_disruption_controll.Resolver.{
  get_nodes_from_namespaced_pod_selector, get_nodes_from_namespaced_pvc_selector,
}
use node_disruption_controll.Budget.Disruptions.{visit_disruptions}

unfoldable pub get_namespaced_name : ApplicationDisruptionBudget → NamespacedName
get_namespaced_name adb = record {
  namespace = adb.meta.namespace;
  name = adb.meta.name;
  kind = adb.meta.kind;
}

unfoldable pub v2_hooks_ready : ApplicationDisruptionBudget → Bool
v2_hooks_ready adb = not (str_eq adb.spec.hook_v2_base_path.url "")

-- The number of nodes plays no part: one disruption more must fit.
unfoldable pub tolerate_disruption : ApplicationDisruptionBudget → Bool
tolerate_disruption adb = leb_ℤ (pos 0) (sub64 adb.status.disruptions_allowed (pos 1))

module _ (env : Env) where
  unfoldable pub get_selected_nodes : ApplicationDisruptionBudget → Action env.World env.sets.Set
  get_selected_nodes adb = do
    from_pods ← get_nodes_from_namespaced_pod_selector env adb.spec.pod_selector adb.meta.namespace
    from_pvcs ← get_nodes_from_namespaced_pvc_selector env adb.spec.pvc_selector adb.meta.namespace
    pure (env.sets.union from_pods from_pvcs)

  unfoldable pub resolve_disruption :
      ApplicationDisruptionBudget → Action env.World (ℕ × List Disruption)
  unfolding get_selected_nodes visit_disruptions
  resolve_disruption adb = do
    selected ← get_selected_nodes adb
    nds ← env.list_node_disruptions
    visit_disruptions env selected nds (0, [])

  -- The status that `Sync` stores, from what it has computed.
  unfoldable pub with_status :
      ApplicationDisruptionBudget → List String → ℕ × List Disruption → ApplicationDisruptionBudget
  with_status adb nodes (count, found) = record adb {
    status = record {
      watched_nodes = of nodes;
      disruptions_allowed = sub64 adb.spec.max_disruptions (pos count);
      current_disruptions = pos count;
      disruptions = of found;
    };
  }

  unfoldable pub sync : ApplicationDisruptionBudget → Action env.World ApplicationDisruptionBudget
  unfolding get_selected_nodes resolve_disruption with_status
  sync adb = do
    node_names ← get_selected_nodes adb
    resolved ← resolve_disruption adb
    pure (with_status adb (node_set_to_string_list env.sets node_names) resolved)

  unfoldable pub is_impacted : ApplicationDisruptionBudget → env.sets.Set → Bool
  is_impacted adb disrupted =
      overlaps env.sets (new_node_set_from_string_list env.sets (items adb.status.watched_nodes))
        disrupted
