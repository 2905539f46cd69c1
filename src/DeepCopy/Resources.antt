-- ===== src/DeepCopy/Resources.antt =====
-- What is read of the API's objects and of their lists.
use node_disruption_controll.DeepCopy.Heap.{Ref}
use node_disruption_controll.DeepCopy.Parts.{Deep, by_fields}
use node_disruption_controll.DeepCopy.Slices.{slice}
use node_disruption_controll.DeepCopy.Objects.{
  Machinery, TypeMeta, NodeDisruptionSpec, NodeDisruptionStatus, ApplicationDisruptionBudgetSpec,
  NodeDisruptionBudgetSpec, DisruptionBudgetStatus, ResourceList, NodeDisruption,
  ApplicationDisruptionBudget, NodeDisruptionBudget, Array, node_disruptions, adbs, ndbs,
  node_disruptions_of, adbs_of, ndbs_of,
}
use node_disruption_controll.DeepCopy.Copies.{
  MachineryCopies, node_disruption_methods, application_disruption_budget_methods,
  node_disruption_budget_methods, node_disruption_list_methods,
  application_disruption_budget_list_methods, node_disruption_budget_list_methods,
}
use node_disruption_controll.DeepCopy.Readings.{
  values, both, budget_status, application_spec, pool_spec, disruption_spec, disruption_status,
}

module _ (m : Machinery) (x : MachineryCopies m) where
  abbrev pub disruption_fields :
      NodeDisruption m
      → (m.ObjectMeta × (NodeDisruptionSpec m × (NodeDisruptionStatus m × TypeMeta)))
  disruption_fields r = (r.object_meta, (r.spec, (r.status, r.type_meta)))

  abbrev pub disruption_build :
      (m.ObjectMeta × (NodeDisruptionSpec m × (NodeDisruptionStatus m × TypeMeta)))
      → NodeDisruption m
  disruption_build a = record {
    object_meta = a.0;
    spec = a.1.0;
    status = a.1.1.0;
    type_meta = a.1.1.1;
  }

  abbrev pub disruption : Deep (Array m) (NodeDisruption m)
  disruption =
      record (by_fields (Array m) disruption_fields disruption_build (
        both m x.object_meta
          (both m (disruption_spec m x) (both m (disruption_status m x) (values m TypeMeta))))) {
            copy = (node_disruption_methods m x).deep_copy_into;
          }

  abbrev pub application_budget_fields :
      ApplicationDisruptionBudget m
      → (m.ObjectMeta × (ApplicationDisruptionBudgetSpec m × (DisruptionBudgetStatus m × TypeMeta)))
  application_budget_fields r = (r.object_meta, (r.spec, (r.status, r.type_meta)))

  abbrev pub application_budget_build :
      (m.ObjectMeta × (ApplicationDisruptionBudgetSpec m × (DisruptionBudgetStatus m × TypeMeta)))
      → ApplicationDisruptionBudget m
  application_budget_build a = record {
    object_meta = a.0;
    spec = a.1.0;
    status = a.1.1.0;
    type_meta = a.1.1.1;
  }

  abbrev pub application_budget : Deep (Array m) (ApplicationDisruptionBudget m)
  application_budget =
      record (by_fields (Array m) application_budget_fields application_budget_build (
        both m x.object_meta
          (both m (application_spec m x) (both m (budget_status m x) (values m TypeMeta))))) {
            copy = (application_disruption_budget_methods m x).deep_copy_into;
          }

  abbrev pub pool_budget_fields :
      NodeDisruptionBudget m
      → (m.ObjectMeta × (NodeDisruptionBudgetSpec m × (DisruptionBudgetStatus m × TypeMeta)))
  pool_budget_fields r = (r.object_meta, (r.spec, (r.status, r.type_meta)))

  abbrev pub pool_budget_build :
      (m.ObjectMeta × (NodeDisruptionBudgetSpec m × (DisruptionBudgetStatus m × TypeMeta)))
      → NodeDisruptionBudget m
  pool_budget_build a = record {
    object_meta = a.0;
    spec = a.1.0;
    status = a.1.1.0;
    type_meta = a.1.1.1;
  }

  abbrev pub pool_budget : Deep (Array m) (NodeDisruptionBudget m)
  pool_budget =
      record (by_fields (Array m) pool_budget_fields pool_budget_build (
        both m x.object_meta
          (both m (pool_spec m x) (both m (budget_status m x) (values m TypeMeta))))) {
            copy = (node_disruption_budget_methods m x).deep_copy_into;
          }

  abbrev pub disruption_item_slice : Deep (Array m) Ref
  disruption_item_slice = slice (Array m) disruption node_disruptions (node_disruptions_of m)

  abbrev pub disruption_list_fields : ResourceList m → (m.ListMeta × (Ref × TypeMeta))
  disruption_list_fields r = (r.list_meta, (r.items, r.type_meta))

  abbrev pub disruption_list_build : (m.ListMeta × (Ref × TypeMeta)) → ResourceList m
  disruption_list_build a = record { list_meta = a.0; items = a.1.0; type_meta = a.1.1 }

  abbrev pub disruption_list : Deep (Array m) (ResourceList m)
  disruption_list =
      record (by_fields (Array m) disruption_list_fields disruption_list_build
        (both m x.list_meta (both m disruption_item_slice (values m TypeMeta)))) {
          copy = (node_disruption_list_methods m x).deep_copy_into;
        }

  abbrev pub application_item_slice : Deep (Array m) Ref
  application_item_slice = slice (Array m) application_budget adbs (adbs_of m)

  abbrev pub application_list_fields : ResourceList m → (m.ListMeta × (Ref × TypeMeta))
  application_list_fields r = (r.list_meta, (r.items, r.type_meta))

  abbrev pub application_list_build : (m.ListMeta × (Ref × TypeMeta)) → ResourceList m
  application_list_build a = record { list_meta = a.0; items = a.1.0; type_meta = a.1.1 }

  abbrev pub application_list : Deep (Array m) (ResourceList m)
  application_list =
      record (by_fields (Array m) application_list_fields application_list_build
        (both m x.list_meta (both m application_item_slice (values m TypeMeta)))) {
          copy = (application_disruption_budget_list_methods m x).deep_copy_into;
        }

  abbrev pub pool_item_slice : Deep (Array m) Ref
  pool_item_slice = slice (Array m) pool_budget ndbs (ndbs_of m)

  abbrev pub pool_list_fields : ResourceList m → (m.ListMeta × (Ref × TypeMeta))
  pool_list_fields r = (r.list_meta, (r.items, r.type_meta))

  abbrev pub pool_list_build : (m.ListMeta × (Ref × TypeMeta)) → ResourceList m
  pool_list_build a = record { list_meta = a.0; items = a.1.0; type_meta = a.1.1 }

  abbrev pub pool_list : Deep (Array m) (ResourceList m)
  pool_list =
      record (by_fields (Array m) pool_list_fields pool_list_build
        (both m x.list_meta (both m pool_item_slice (values m TypeMeta)))) {
          copy = (node_disruption_budget_list_methods m x).deep_copy_into;
        }
