-- ===== src/DeepCopy/Copies.antt =====
-- The methods of zz_generated.deepcopy.go, one definition for each type.
use node_disruption_controll.Prelude.{Option, none, some}
use node_disruption_controll.Api.{NamespacedName, HookSpec, Disruption, DisruptedBudgetStatus}
use node_disruption_controll.DeepCopy.Heap.{Ref, Copy, ◌>>=◌, pure}
use node_disruption_controll.DeepCopy.Parts.{Deep}
use node_disruption_controll.DeepCopy.Slices.{copy_slice}
use node_disruption_controll.DeepCopy.Objects.{
  Machinery, RetrySpec, NodeDisruptionSpec, NodeDisruptionStatus, ApplicationDisruptionBudgetSpec,
  NodeDisruptionBudgetSpec, DisruptionBudgetStatus, ResourceList, NodeDisruption,
  ApplicationDisruptionBudget, NodeDisruptionBudget, Array, strings, disruptions, statuses,
  node_disruptions, adbs, ndbs, strings_of, disruptions_of, statuses_of, node_disruptions_of,
  adbs_of, ndbs_of,
}

-- `DeepCopyInto` of the API machinery's types.
pub record MachineryCopies (m : Machinery) : Type 1 where
  pub object_meta : Deep (Array m) m.ObjectMeta
  pub list_meta : Deep (Array m) m.ListMeta
  pub label_selector : Deep (Array m) m.LabelSelector
  pub time : Deep (Array m) m.Time

-- An object behind the interface `runtime.Object`.
pub data Object (m : Machinery) : Type 0 where
  node_disruption : NodeDisruption m → Object m
  application_disruption_budget : ApplicationDisruptionBudget m → Object m
  node_disruption_budget : NodeDisruptionBudget m → Object m
  node_disruption_list : ResourceList m → Object m
  application_disruption_budget_list : ResourceList m → Object m
  node_disruption_budget_list : ResourceList m → Object m

module _ (m : Machinery) where
  -- `DeepCopyInto`, whose `out` is what is returned, and `DeepCopy`, where a nil pointer is `none`.
  pub record Methods (A : Type 0) : Type 0 where
    pub deep_copy_into : A → Copy (Array m) A
    pub deep_copy : Option A → Copy (Array m) (Option A)

  abbrev deep_copy_by : {A : Type 0} → (A → Copy (Array m) A) → Option A → Copy (Array m) (Option A)
  deep_copy_by into none = pure none
  deep_copy_by into (some a) = do out ← into a; pure (some out)

  abbrev pub methods : {A : Type 0} → (A → Copy (Array m) A) → Methods A
  methods into = record { deep_copy_into = into; deep_copy = deep_copy_by into }

  -- The same with `DeepCopyObject`.
  pub record ObjectMethods (A : Type 0) : Type 0 where
    pub deep_copy_into : A → Copy (Array m) A
    pub deep_copy : Option A → Copy (Array m) (Option A)
    pub deep_copy_object : Option A → Copy (Array m) (Option (Object m))

  abbrev as_object : {A : Type 0} → (A → Object m) → Option A → Option (Object m)
  as_object object none = none
  as_object object (some a) = some (object a)

  abbrev object_methods : {A : Type 0} → (A → Object m) → (A → Copy (Array m) A) → ObjectMethods A
  object_methods object into = record {
    deep_copy_into = into;
    deep_copy = deep_copy_by into;
    deep_copy_object = λ a. (do c ← deep_copy_by into a; pure (as_object object c));
  }

  -- `*out = *in`
  abbrev disruption_methods : Methods Disruption
  disruption_methods = methods (λ a. pure a)

  abbrev hook_spec_methods : Methods HookSpec
  hook_spec_methods = methods (λ a. pure a)

  abbrev namespaced_name_methods : Methods NamespacedName
  namespaced_name_methods = methods (λ a. pure a)

  abbrev disrupted_budget_status_methods : Methods DisruptedBudgetStatus
  disrupted_budget_status_methods = methods (λ a. pure a)

  abbrev copy_strings : Ref → Copy (Array m) Ref
  copy_strings = copy_slice (Array m) pure strings (strings_of m)

  abbrev pub disruption_budget_status_methods : Methods (DisruptionBudgetStatus m)
  disruption_budget_status_methods = methods (λ a. do
    watched ← copy_strings a.watched_nodes
    found ← copy_slice (Array m) pure disruptions (disruptions_of m) a.disruptions
    pure (record a { watched_nodes = watched; disruptions = found }))

  module _ (x : MachineryCopies m) where
    abbrev pub application_disruption_budget_spec_methods :
        Methods (ApplicationDisruptionBudgetSpec m)
    application_disruption_budget_spec_methods = methods (λ a. do
      pods ← x.label_selector.copy a.pod_selector
      pvcs ← x.label_selector.copy a.pvc_selector
      types ← copy_strings a.supported_node_disruption_types
      pure (record a {
        pod_selector = pods;
        pvc_selector = pvcs;
        supported_node_disruption_types = types;
      }))

    abbrev pub node_disruption_budget_spec_methods : Methods (NodeDisruptionBudgetSpec m)
    node_disruption_budget_spec_methods = methods (λ a. do
      nodes ← x.label_selector.copy a.node_selector
      types ← copy_strings a.supported_node_disruption_types
      pure (record a { node_selector = nodes; supported_node_disruption_types = types }))

    abbrev pub retry_spec_methods : Methods (RetrySpec m)
    retry_spec_methods =
        methods (λ a. do deadline ← x.time.copy a.deadline; pure (record a { deadline = deadline }))

    abbrev pub node_disruption_spec_methods : Methods (NodeDisruptionSpec m)
    node_disruption_spec_methods = methods (λ a. do
      nodes ← x.label_selector.copy a.node_selector
      start ← x.time.copy a.start_date
      not_before ← x.time.copy a.do_not_grant_before
      retry ← retry_spec_methods.deep_copy_into a.retry
      pure (record a {
        node_selector = nodes;
        start_date = start;
        do_not_grant_before = not_before;
        retry = retry;
      }))

    abbrev pub node_disruption_status_methods : Methods (NodeDisruptionStatus m)
    node_disruption_status_methods = methods (λ a. do
      budgets ← copy_slice (Array m) pure statuses (statuses_of m) a.disrupted_disruption_budgets
      nodes ← copy_strings a.disrupted_nodes
      next ← x.time.copy a.next_retry_date
      pure (record a {
        disrupted_disruption_budgets = budgets;
        disrupted_nodes = nodes;
        next_retry_date = next;
      }))

    abbrev pub node_disruption_methods : ObjectMethods (NodeDisruption m)
    node_disruption_methods = object_methods node_disruption (λ a. do
      meta ← x.object_meta.copy a.object_meta
      spec ← node_disruption_spec_methods.deep_copy_into a.spec
      status ← node_disruption_status_methods.deep_copy_into a.status
      pure (record a { object_meta = meta; spec = spec; status = status }))

    abbrev pub application_disruption_budget_methods : ObjectMethods (ApplicationDisruptionBudget m)
    application_disruption_budget_methods = object_methods application_disruption_budget (λ a. do
      meta ← x.object_meta.copy a.object_meta
      spec ← application_disruption_budget_spec_methods.deep_copy_into a.spec
      status ← disruption_budget_status_methods.deep_copy_into a.status
      pure (record a { object_meta = meta; spec = spec; status = status }))

    abbrev pub node_disruption_budget_methods : ObjectMethods (NodeDisruptionBudget m)
    node_disruption_budget_methods = object_methods node_disruption_budget (λ a. do
      meta ← x.object_meta.copy a.object_meta
      spec ← node_disruption_budget_spec_methods.deep_copy_into a.spec
      status ← disruption_budget_status_methods.deep_copy_into a.status
      pure (record a { object_meta = meta; spec = spec; status = status }))

    abbrev pub node_disruption_list_methods : ObjectMethods (ResourceList m)
    node_disruption_list_methods = object_methods node_disruption_list (λ a. do
      meta ← x.list_meta.copy a.list_meta
      items ←
          copy_slice (Array m) node_disruption_methods.deep_copy_into node_disruptions
            (node_disruptions_of m) a.items
      pure (record a { list_meta = meta; items = items }))

    abbrev pub application_disruption_budget_list_methods : ObjectMethods (ResourceList m)
    application_disruption_budget_list_methods =
        object_methods application_disruption_budget_list (λ a. do
          meta ← x.list_meta.copy a.list_meta
          items ←
              copy_slice (Array m) application_disruption_budget_methods.deep_copy_into adbs
                (adbs_of m) a.items
          pure (record a { list_meta = meta; items = items }))

    abbrev pub node_disruption_budget_list_methods : ObjectMethods (ResourceList m)
    node_disruption_budget_list_methods = object_methods node_disruption_budget_list (λ a. do
      meta ← x.list_meta.copy a.list_meta
      items ←
          copy_slice (Array m) node_disruption_budget_methods.deep_copy_into ndbs (ndbs_of m)
            a.items
      pure (record a { list_meta = meta; items = items }))
