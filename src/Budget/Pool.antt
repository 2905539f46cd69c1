-- ===== src/Budget/Pool.antt =====
-- `NodeDisruptionBudgetResolver` of internal/controller/nodedisruptionbudget_controller.go: a budget
-- over a pool of nodes.
use node_disruption_controll.Prelude.{ℕ, String, Bool, List, [], length}
use node_disruption_controll.Prelude.Int.{ℤ, pos, leb_ℤ, sub64}
use node_disruption_controll.Prelude.Float.{to_float64, of_float64, float_min}
use node_disruption_controll.Api.{NamespacedName, Disruption, NodeDisruptionBudget}
use node_disruption_controll.Api.Slice.{of, items}
use node_disruption_controll.NodeSet.{
  new_node_set_from_string_list, node_set_to_string_list, overlaps,
}
use node_disruption_controll.Client.{Env}
use node_disruption_controll.Client.Monad.{Action, pure, ◌>>=◌}
use node_disruption_controll.Resolver.{get_node_from_node_selector}
use node_disruption_controll.Budget.Disruptions.{visit_disruptions}

unfoldable pub get_namespaced_name : NodeDisruptionBudget → NamespacedName
get_namespaced_name ndb = record {
  namespace = ndb.meta.namespace;
  name = ndb.meta.name;
  kind = ndb.meta.kind;
}

-- `computeNodeDisruptionBudgetDisruptionsAllowed`
unfoldable pub compute_disruptions_allowed : ℤ → ℤ → ℤ → ℤ → ℤ
unfolding to_float64 of_float64 float_min sub64
compute_disruptions_allowed max_disrupted_nodes min_undisrupted_nodes watched_nodes
      current_disruptions =
    let disruptions_for_max = sub64 max_disrupted_nodes current_disruptions in
    let disruptions_for_min =
      sub64 (sub64 watched_nodes current_disruptions) min_undisrupted_nodes in
    of_float64 (float_min (to_float64 disruptions_for_max) (to_float64 disruptions_for_min))

module _ (env : Env) where
  unfoldable pub get_selected_nodes : NodeDisruptionBudget → Action env.World env.sets.Set
  get_selected_nodes ndb = get_node_from_node_selector env ndb.spec.node_selector

  unfoldable pub resolve_disruption : NodeDisruptionBudget → Action env.World (ℕ × List Disruption)
  unfolding get_selected_nodes visit_disruptions
  resolve_disruption ndb = do
    selected ← get_selected_nodes ndb
    nds ← env.list_node_disruptions
    visit_disruptions env selected nds (0, [])

  -- The status that `Sync` stores, from what it has computed.
  unfoldable pub with_status :
      NodeDisruptionBudget → List String → ℕ × List Disruption → NodeDisruptionBudget
  unfolding compute_disruptions_allowed
  with_status ndb nodes (count, found) = record ndb {
    status = record {
      watched_nodes = of nodes;
      disruptions_allowed =
          compute_disruptions_allowed ndb.spec.max_disrupted_nodes ndb.spec.min_undisrupted_nodes
            (pos (length nodes)) (pos count);
      current_disruptions = pos count;
      disruptions = of found;
    };
  }

  unfoldable pub sync : NodeDisruptionBudget → Action env.World NodeDisruptionBudget
  unfolding get_selected_nodes resolve_disruption with_status
  sync ndb = do
    node_names ← get_selected_nodes ndb
    resolved ← resolve_disruption ndb
    pure (with_status ndb (node_set_to_string_list env.sets node_names) resolved)

  unfoldable pub is_impacted : NodeDisruptionBudget → env.sets.Set → Bool
  is_impacted ndb disrupted =
      overlaps env.sets (new_node_set_from_string_list env.sets (items ndb.status.watched_nodes))
        disrupted

  -- Every watched node that is disrupted counts.
  unfoldable pub tolerate_disruption : NodeDisruptionBudget → env.sets.Set → Bool
  tolerate_disruption ndb disrupted =
      let watched = new_node_set_from_string_list env.sets (items ndb.status.watched_nodes) in
      let count = env.sets.len (env.sets.intersection watched disrupted) in
      leb_ℤ (pos 0) (sub64 ndb.status.disruptions_allowed (pos count))
