-- ===== src/Resolver.antt =====
-- pkg/resolver/resolver.go: from selectors to the names of nodes.
pub mod Selectors
pub mod Volumes
pub mod Laws
use node_disruption_controll.Prelude.{
  String, Bool, true, false, none, some, List, [], ◌∷◌, ◌&&◌, str_eq, if◌then◌else◌,
}
use node_disruption_controll.Api.{LabelSelector}
use node_disruption_controll.Api.Objects.{Node, Pod, PersistentVolume}
use node_disruption_controll.NodeSet.{SetLibrary}
use node_disruption_controll.Client.{Env}
use node_disruption_controll.Client.Monad.{Action, Result, ok, err, pure, lift, ◌>>=◌}
use Selectors.{node_selector_as_selector}
use Volumes.{volumes_to_fetch}

module _ (L : SetLibrary) where
  -- The loop over pods: a pod that is not scheduled has no node.
  pub insert_pod_nodes : L.Set → List Pod → L.Set
  insert_pod_nodes s [] = s
  insert_pod_nodes s (p ∷ ps) =
      insert_pod_nodes (if str_eq p.node_name "" then s else L.insert s p.node_name) ps

  pub insert_nodes : L.Set → List Node → L.Set
  insert_nodes s [] = s
  insert_nodes s (n ∷ ns) = insert_nodes (L.insert s n.name) ns

module _ (env : Env) where
  -- `GetNodesFromNamespacedPodSelector`
  unfoldable pub get_nodes_from_namespaced_pod_selector :
      LabelSelector → String → Action env.World env.sets.Set
  unfolding insert_pod_nodes
  get_nodes_from_namespaced_pod_selector pod_selector namespace = do
    selector ← lift (env.label_selector_as_selector pod_selector)
    if env.selector_empty selector then pure env.sets.new else do
      pods ← env.list_pods namespace selector
      pure (insert_pod_nodes env.sets env.sets.new pods)

  -- `GetNodeFromNodeSelector`
  unfoldable pub get_node_from_node_selector : LabelSelector → Action env.World env.sets.Set
  unfolding insert_nodes
  get_node_from_node_selector node_selector = do
    selector ← lift (env.label_selector_as_selector node_selector)
    if env.selector_empty selector then pure env.sets.new else do
      nodes ← env.list_nodes (some selector) none
      pure (insert_nodes env.sets env.sets.new nodes)

  -- The part of the loop over volumes that follows the read of one.
  add_volume_nodes : PersistentVolume → env.sets.Set → Action env.World env.sets.Set
  unfolding insert_nodes node_selector_as_selector
  add_volume_nodes pv s = elim pv.required [
    | none ↦ pure s
    | some terms ↦ do
      (labels, fields) ← lift (node_selector_as_selector env (some terms))
      let no_labels = env.selector_empty labels
      let no_fields = env.field_selector_empty fields
      if no_labels && no_fields then pure s else do
        nodes ←
            env.list_nodes (if no_labels then none else some labels)
              (if no_fields then none else some fields)
        pure (insert_nodes env.sets s nodes)
  ]

  -- The loop over the names of the volumes.
  add_volumes : List String → env.sets.Set → Action env.World env.sets.Set
  unfolding add_volume_nodes
  add_volumes [] s = pure s
  add_volumes (name ∷ names) s = do
    pv ← env.get_persistent_volume name
    s' ← add_volume_nodes pv s
    add_volumes names s'

  -- `GetNodesFromNamespacedPVCSelector`
  unfoldable pub get_nodes_from_namespaced_pvc_selector :
      LabelSelector → String → Action env.World env.sets.Set
  unfolding add_volumes volumes_to_fetch
  get_nodes_from_namespaced_pvc_selector pvc_selector namespace = do
    selector ← lift (env.label_selector_as_selector pvc_selector)
    if env.selector_empty selector then pure env.sets.new else do
      pvcs ← env.list_pvcs namespace selector
      names ← lift (volumes_to_fetch pvcs)
      add_volumes names env.sets.new
