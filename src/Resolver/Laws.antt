-- ===== src/Resolver/Laws.antt =====
-- Which nodes the resolver finds, and what it does on claims that are not bound.
use node_disruption_controll.Prelude.{
  String, Bool, true, false, not, ◌&&◌, ◌||◌, none, some, List, [], ◌∷◌, ◌≡◌, ◌↔◌, ◌∙◌, refl, arith,
  any, all, map, keep_if, contains, str_eq, Bool-cases, inl, inr,
}
use node_disruption_controll.Api.{LabelSelector}
use node_disruption_controll.Api.Objects.{
  ClaimPhase, bound, pending, Pod, Node, PersistentVolumeClaim,
}
use node_disruption_controll.NodeSet.{SetLibrary, IsLawful}
use node_disruption_controll.Client.{Env}
use node_disruption_controll.Client.Monad.{ok, Result-cases}
use node_disruption_controll.Resolver.{
  insert_pod_nodes, insert_nodes, get_nodes_from_namespaced_pod_selector,
  get_node_from_node_selector,
}
use node_disruption_controll.Resolver.Volumes.{add_volume, visit_claim, volumes_to_fetch}

-- The pod is scheduled on the node of this name.
abbrev runs_on : String → Pod → Bool
runs_on name p = not (str_eq p.node_name "") && str_eq p.node_name name

module _ (L : SetLibrary) (lawful : IsLawful L) where
  contains-insert_pod_nodes :
      (s : L.Set) (pods : List Pod) (a : String)
      → contains (L.elements (insert_pod_nodes L s pods)) a
        ≡ (contains (L.elements s) a || any (runs_on a) pods)
  unfolding insert_pod_nodes
  contains-insert_pod_nodes s [] a = ground arith
  contains-insert_pod_nodes s (p ∷ ps) a = elim (Bool-cases (str_eq p.node_name "")) [
    | inl unscheduled ↦ rw unscheduled (contains-insert_pod_nodes s ps a)
    | inr scheduled ↦ rw scheduled (
        contains-insert_pod_nodes (L.insert s p.node_name) ps a
        ∙ rw (lawful.contains-insert s p.node_name a) (ground arith))
  ]

  contains-insert_nodes :
      (s : L.Set) (nodes : List Node) (a : String)
      → contains (L.elements (insert_nodes L s nodes)) a
        ≡ (contains (L.elements s) a || any (λ (n : Node). str_eq n.name a) nodes)
  unfolding insert_nodes
  contains-insert_nodes s [] a = ground arith
  contains-insert_nodes s (n ∷ ns) a =
      contains-insert_nodes (L.insert s n.name) ns a
      ∙ rw (lawful.contains-insert s n.name a) (ground arith)

module _ (env : Env) (lawful : IsLawful env.sets) where
  -- Over a lawful set library, where the selector is valid and not empty and the pods can be
  -- listed, the call succeeds, and a node is among the result if and only if one of the pods
  -- listed is scheduled on it; a pod that is not scheduled adds nothing.
  pub get_nodes_from_pods-contains :
      (pod_selector : LabelSelector) (namespace : String) (a : String) (w : env.World)
      {selector : env.Selector} {pods : List Pod} {w' : env.World}
      → env.label_selector_as_selector pod_selector ≡ ok selector
      → env.selector_empty selector ≡ false
      → env.list_pods namespace selector w ≡ (ok pods, w')
      → (nodes : env.sets.Set) × (get_nodes_from_namespaced_pod_selector env pod_selector namespace
            w
          ≡ (ok nodes, w'))
        × (contains (env.sets.elements nodes) a ≡ any (runs_on a) pods)
  unfolding get_nodes_from_namespaced_pod_selector
  get_nodes_from_pods-contains pod_selector namespace a w {pods = pods} parsed some_labels listed =
      (
        insert_pod_nodes env.sets env.sets.new pods,
        ground arith,
        contains-insert_pod_nodes env.sets lawful env.sets.new pods a
            ∙ rw (lawful.contains-new a) refl,
      )

  -- Over a lawful set library, where the selector is valid and not empty and the nodes can be
  -- listed, the call succeeds with the names of the nodes listed.
  get_node_from_node_selector-contains :
      (node_selector : LabelSelector) (a : String) (w : env.World) {selector : env.Selector}
      {listed : List Node} {w' : env.World}
      → env.label_selector_as_selector node_selector ≡ ok selector
      → env.selector_empty selector ≡ false
      → env.list_nodes (some selector) none w ≡ (ok listed, w')
      → (nodes : env.sets.Set) × (get_node_from_node_selector env node_selector w ≡ (ok nodes, w'))
        × (contains (env.sets.elements nodes) a ≡ any (λ (n : Node). str_eq n.name a) listed)
  unfolding get_node_from_node_selector
  get_node_from_node_selector-contains node_selector a w {listed = nodes} parsed some_labels
        listed =
      (
        insert_nodes env.sets env.sets.new nodes,
        ground arith,
        contains-insert_nodes env.sets lawful env.sets.new nodes a
            ∙ rw (lawful.contains-new a) refl,
      )

abbrev is_bound : ClaimPhase → Bool
is_bound bound = true
is_bound _ = false

abbrev is_safe : ClaimPhase → Bool
is_safe bound = true
is_safe pending = true
is_safe _ = false

-- The loop over claims succeeds if and only if each claim is bound or pending, and then with the
-- volumes of the bound ones, in their order.
pub volumes_to_fetch-safe :
    (pvcs : List PersistentVolumeClaim) (names : List String)
    → (volumes_to_fetch pvcs ≡ ok names) ↔ (
        (all (λ (c : PersistentVolumeClaim). is_safe c.phase) pvcs ≡ true)
        × (names
            ≡ map
                (λ (c : PersistentVolumeClaim). c.volume_name)
                (keep_if (λ (c : PersistentVolumeClaim). is_bound c.phase) pvcs)))
unfolding volumes_to_fetch visit_claim add_volume
volumes_to_fetch-safe [] names = (ground arith, ground arith)
volumes_to_fetch-safe (pvc ∷ pvcs) names =
    let bound_names =
      map (λ (c : PersistentVolumeClaim). c.volume_name)
        (keep_if (λ (c : PersistentVolumeClaim). is_bound c.phase) pvcs) in
    elim (Result-cases (volumes_to_fetch pvcs)) [
      | inl (rest, e) ↦ let hyp = volumes_to_fetch-safe pvcs rest in (ground arith, ground arith)
      | inr (problem, e) ↦
          let hyp = volumes_to_fetch-safe pvcs bound_names in (ground arith, ground arith)
    ]
