-- ===== src/DeepCopy/Depth.antt =====
-- The copies of the API's types are deep.
use node_disruption_controll.Prelude.{String, Bool, refl}
use node_disruption_controll.Prelude.Int.{ℤ}
use node_disruption_controll.Api.{HookSpec, Disruption, DisruptedBudgetStatus, NodeDisruptionState}
use node_disruption_controll.DeepCopy.Heap.{Ref}
use node_disruption_controll.DeepCopy.Parts.{IsDeep, plain-IsDeep, pair-IsDeep, by_fields-IsDeep}
use node_disruption_controll.DeepCopy.Slices.{slice-IsDeep}
use node_disruption_controll.DeepCopy.Objects.{
  Machinery, TypeMeta, RetrySpec, NodeDisruptionSpec, NodeDisruptionStatus,
  ApplicationDisruptionBudgetSpec, NodeDisruptionBudgetSpec, DisruptionBudgetStatus, ResourceList,
  NodeDisruption, ApplicationDisruptionBudget, NodeDisruptionBudget, Array, strings, disruptions,
  statuses, node_disruptions, adbs, ndbs, strings_of, disruptions_of, statuses_of,
  node_disruptions_of, adbs_of, ndbs_of,
}
use node_disruption_controll.DeepCopy.Copies.{MachineryCopies}
use node_disruption_controll.DeepCopy.Readings.{
  budget_status, budget_status_fields, budget_status_build, application_spec,
  application_spec_fields, application_spec_build, pool_spec, pool_spec_fields, pool_spec_build,
  retry, retry_fields, retry_build, disruption_spec, disruption_spec_fields, disruption_spec_build,
  disruption_status, disruption_status_fields, disruption_status_build, string_slice,
  disruption_slice, status_slice, values,
}
use node_disruption_controll.DeepCopy.Resources.{
  disruption, disruption_fields, disruption_build, application_budget, application_budget_fields,
  application_budget_build, pool_budget, pool_budget_fields, pool_budget_build, disruption_list,
  disruption_list_fields, disruption_list_build, application_list, application_list_fields,
  application_list_build, pool_list, pool_list_fields, pool_list_build, disruption_item_slice,
  application_item_slice, pool_item_slice,
}

-- The copies of the API machinery are deep.
pub record AreDeep (m : Machinery) (x : MachineryCopies m) : Type 0 where
  pub object_meta : IsDeep (Array m) m.ObjectMeta x.object_meta
  pub list_meta : IsDeep (Array m) m.ListMeta x.list_meta
  pub label_selector : IsDeep (Array m) m.LabelSelector x.label_selector
  pub time : IsDeep (Array m) m.Time x.time

module _ (m : Machinery) (x : MachineryCopies m) (laws : AreDeep m x) where
  string_slice-IsDeep : IsDeep (Array m) Ref (string_slice m)
  string_slice-IsDeep =
      slice-IsDeep (Array m) (values m String) strings (strings_of m)
        (plain-IsDeep (Array m) String) (λ xs. refl)

  disruption_slice-IsDeep : IsDeep (Array m) Ref (disruption_slice m)
  disruption_slice-IsDeep =
      slice-IsDeep (Array m) (values m Disruption) disruptions (disruptions_of m)
        (plain-IsDeep (Array m) Disruption) (λ xs. refl)

  status_slice-IsDeep : IsDeep (Array m) Ref (status_slice m)
  status_slice-IsDeep =
      slice-IsDeep (Array m) (values m DisruptedBudgetStatus) statuses (statuses_of m)
        (plain-IsDeep (Array m) DisruptedBudgetStatus) (λ xs. refl)

  budget_status-IsDeep : IsDeep (Array m) (DisruptionBudgetStatus m) (budget_status m x)
  budget_status-IsDeep =
      by_fields-IsDeep (Array m) (budget_status_fields m x) (budget_status_build m x)
        (pair-IsDeep (Array m) string_slice-IsDeep
          (pair-IsDeep (Array m) disruption_slice-IsDeep (plain-IsDeep (Array m) (ℤ × ℤ))))
        (λ a. refl)

  application_spec-IsDeep :
      IsDeep (Array m) (ApplicationDisruptionBudgetSpec m) (application_spec m x)
  application_spec-IsDeep =
      by_fields-IsDeep (Array m) (application_spec_fields m x) (application_spec_build m x)
        (pair-IsDeep (Array m) laws.label_selector (
          pair-IsDeep (Array m) laws.label_selector (
            pair-IsDeep (Array m) string_slice-IsDeep
              (plain-IsDeep (Array m) (ℤ × (HookSpec × HookSpec))))))
        (λ a. refl)

  pool_spec-IsDeep : IsDeep (Array m) (NodeDisruptionBudgetSpec m) (pool_spec m x)
  pool_spec-IsDeep =
      by_fields-IsDeep (Array m) (pool_spec_fields m x) (pool_spec_build m x)
        (pair-IsDeep (Array m) laws.label_selector
          (pair-IsDeep (Array m) string_slice-IsDeep (plain-IsDeep (Array m) (ℤ × ℤ))))
        (λ a. refl)

  retry-IsDeep : IsDeep (Array m) (RetrySpec m) (retry m x)
  retry-IsDeep =
      by_fields-IsDeep (Array m) (retry_fields m x) (retry_build m x)
        (pair-IsDeep (Array m) laws.time (plain-IsDeep (Array m) Bool)) (λ a. refl)

  disruption_spec-IsDeep : IsDeep (Array m) (NodeDisruptionSpec m) (disruption_spec m x)
  disruption_spec-IsDeep =
      by_fields-IsDeep (Array m) (disruption_spec_fields m x) (disruption_spec_build m x)
        (pair-IsDeep (Array m) laws.label_selector (
          pair-IsDeep (Array m) laws.time (
            pair-IsDeep (Array m) laws.time
              (pair-IsDeep (Array m) retry-IsDeep (plain-IsDeep (Array m) (ℤ × String))))))
        (λ a. refl)

  disruption_status-IsDeep : IsDeep (Array m) (NodeDisruptionStatus m) (disruption_status m x)
  disruption_status-IsDeep =
      by_fields-IsDeep (Array m) (disruption_status_fields m x) (disruption_status_build m x)
        (pair-IsDeep (Array m) status_slice-IsDeep (
          pair-IsDeep (Array m) string_slice-IsDeep
            (pair-IsDeep (Array m) laws.time (plain-IsDeep (Array m) NodeDisruptionState))))
        (λ a. refl)

  pub disruption-IsDeep : IsDeep (Array m) (NodeDisruption m) (disruption m x)
  disruption-IsDeep =
      by_fields-IsDeep (Array m) (disruption_fields m x) (disruption_build m x)
        (pair-IsDeep (Array m) laws.object_meta (
          pair-IsDeep (Array m) disruption_spec-IsDeep
            (pair-IsDeep (Array m) disruption_status-IsDeep (plain-IsDeep (Array m) TypeMeta))))
        (λ a. refl)

  pub application_budget-IsDeep :
      IsDeep (Array m) (ApplicationDisruptionBudget m) (application_budget m x)
  application_budget-IsDeep =
      by_fields-IsDeep (Array m) (application_budget_fields m x) (application_budget_build m x)
        (pair-IsDeep (Array m) laws.object_meta (
          pair-IsDeep (Array m) application_spec-IsDeep
            (pair-IsDeep (Array m) budget_status-IsDeep (plain-IsDeep (Array m) TypeMeta))))
        (λ a. refl)

  pub pool_budget-IsDeep : IsDeep (Array m) (NodeDisruptionBudget m) (pool_budget m x)
  pool_budget-IsDeep =
      by_fields-IsDeep (Array m) (pool_budget_fields m x) (pool_budget_build m x)
        (pair-IsDeep (Array m) laws.object_meta (
          pair-IsDeep (Array m) pool_spec-IsDeep
            (pair-IsDeep (Array m) budget_status-IsDeep (plain-IsDeep (Array m) TypeMeta))))
        (λ a. refl)

  disruption_item_slice-IsDeep : IsDeep (Array m) Ref (disruption_item_slice m x)
  disruption_item_slice-IsDeep =
      slice-IsDeep (Array m) (disruption m x) node_disruptions (node_disruptions_of m)
        disruption-IsDeep (λ xs. refl)

  pub disruption_list-IsDeep : IsDeep (Array m) (ResourceList m) (disruption_list m x)
  disruption_list-IsDeep =
      by_fields-IsDeep (Array m) (disruption_list_fields m x) (disruption_list_build m x)
        (pair-IsDeep (Array m) laws.list_meta
          (pair-IsDeep (Array m) disruption_item_slice-IsDeep (plain-IsDeep (Array m) TypeMeta)))
        (λ a. refl)

  application_item_slice-IsDeep : IsDeep (Array m) Ref (application_item_slice m x)
  application_item_slice-IsDeep =
      slice-IsDeep (Array m) (application_budget m x) adbs (adbs_of m) application_budget-IsDeep
        (λ xs. refl)

  pub application_list-IsDeep : IsDeep (Array m) (ResourceList m) (application_list m x)
  application_list-IsDeep =
      by_fields-IsDeep (Array m) (application_list_fields m x) (application_list_build m x)
        (pair-IsDeep (Array m) laws.list_meta
          (pair-IsDeep (Array m) application_item_slice-IsDeep (plain-IsDeep (Array m) TypeMeta)))
        (λ a. refl)

  pool_item_slice-IsDeep : IsDeep (Array m) Ref (pool_item_slice m x)
  pool_item_slice-IsDeep =
      slice-IsDeep (Array m) (pool_budget m x) ndbs (ndbs_of m) pool_budget-IsDeep (λ xs. refl)

  pub pool_list-IsDeep : IsDeep (Array m) (ResourceList m) (pool_list m x)
  pool_list-IsDeep =
      by_fields-IsDeep (Array m) (pool_list_fields m x) (pool_list_build m x)
        (pair-IsDeep (Array m) laws.list_meta
          (pair-IsDeep (Array m) pool_item_slice-IsDeep (plain-IsDeep (Array m) TypeMeta)))
        (λ a. refl)
