-- ===== src/DeepCopy/Readings.antt =====
-- What is read of the API's specs and statuses: of each part, and of the arrays behind slices.
use node_disruption_controll.Prelude.{String, Bool}
use node_disruption_controll.Prelude.Int.{ℤ}
use node_disruption_controll.Api.{HookSpec, Disruption, DisruptedBudgetStatus, NodeDisruptionState}
use node_disruption_controll.DeepCopy.Heap.{Ref}
use node_disruption_controll.DeepCopy.Parts.{Deep, plain, pair, by_fields}
use node_disruption_controll.DeepCopy.Slices.{slice}
use node_disruption_controll.DeepCopy.Objects.{
  Machinery, RetrySpec, NodeDisruptionSpec, NodeDisruptionStatus, ApplicationDisruptionBudgetSpec,
  NodeDisruptionBudgetSpec, DisruptionBudgetStatus, Array, strings, disruptions, statuses,
  strings_of, disruptions_of, statuses_of,
}
use node_disruption_controll.DeepCopy.Copies.{
  MachineryCopies, disruption_budget_status_methods, application_disruption_budget_spec_methods,
  node_disruption_budget_spec_methods, retry_spec_methods, node_disruption_spec_methods,
  node_disruption_status_methods,
}

module _ (m : Machinery) where
  abbrev pub values : (A : Type 0) → Deep (Array m) A
  values A = plain (Array m) A

  abbrev pub both : {A B : Type 0} → Deep (Array m) A → Deep (Array m) B → Deep (Array m) (A × B)
  both d e = pair (Array m) d e

  abbrev pub string_slice : Deep (Array m) Ref
  string_slice = slice (Array m) (values String) strings (strings_of m)

  abbrev pub disruption_slice : Deep (Array m) Ref
  disruption_slice = slice (Array m) (values Disruption) disruptions (disruptions_of m)

  abbrev pub status_slice : Deep (Array m) Ref
  status_slice = slice (Array m) (values DisruptedBudgetStatus) statuses (statuses_of m)

  module _ (x : MachineryCopies m) where
    abbrev pub budget_status_fields : DisruptionBudgetStatus m → (Ref × (Ref × (ℤ × ℤ)))
    budget_status_fields r =
        (r.watched_nodes, (r.disruptions, (r.disruptions_allowed, r.current_disruptions)))

    abbrev pub budget_status_build : (Ref × (Ref × (ℤ × ℤ))) → DisruptionBudgetStatus m
    budget_status_build a = record {
      watched_nodes = a.0;
      disruptions = a.1.0;
      disruptions_allowed = a.1.1.0;
      current_disruptions = a.1.1.1;
    }

    abbrev pub budget_status : Deep (Array m) (DisruptionBudgetStatus m)
    budget_status =
        record (by_fields (Array m) budget_status_fields budget_status_build
          (both string_slice (both disruption_slice (values (ℤ × ℤ))))) {
            copy = (disruption_budget_status_methods m).deep_copy_into;
          }

    abbrev pub application_spec_fields :
        ApplicationDisruptionBudgetSpec m
        → (m.LabelSelector × (m.LabelSelector × (Ref × (ℤ × (HookSpec × HookSpec)))))
    application_spec_fields r = (
      r.pod_selector,
      (
        r.pvc_selector,
        (
          r.supported_node_disruption_types,
          (r.max_disruptions, (r.health_hook, r.hook_v2_base_path)),
        ),
      ),
    )

    abbrev pub application_spec_build :
        (m.LabelSelector × (m.LabelSelector × (Ref × (ℤ × (HookSpec × HookSpec)))))
        → ApplicationDisruptionBudgetSpec m
    application_spec_build a = record {
      pod_selector = a.0;
      pvc_selector = a.1.0;
      supported_node_disruption_types = a.1.1.0;
      max_disruptions = a.1.1.1.0;
      health_hook = a.1.1.1.1.0;
      hook_v2_base_path = a.1.1.1.1.1;
    }

    abbrev pub application_spec : Deep (Array m) (ApplicationDisruptionBudgetSpec m)
    application_spec =
        record (by_fields (Array m) application_spec_fields application_spec_build (
          both x.label_selector
            (both x.label_selector (both string_slice (values (ℤ × (HookSpec × HookSpec))))))) {
              copy = (application_disruption_budget_spec_methods m x).deep_copy_into;
            }

    abbrev pub pool_spec_fields : NodeDisruptionBudgetSpec m → (m.LabelSelector × (Ref × (ℤ × ℤ)))
    pool_spec_fields r = (
      r.node_selector,
      (r.supported_node_disruption_types, (r.max_disrupted_nodes, r.min_undisrupted_nodes)),
    )

    abbrev pub pool_spec_build : (m.LabelSelector × (Ref × (ℤ × ℤ))) → NodeDisruptionBudgetSpec m
    pool_spec_build a = record {
      node_selector = a.0;
      supported_node_disruption_types = a.1.0;
      max_disrupted_nodes = a.1.1.0;
      min_undisrupted_nodes = a.1.1.1;
    }

    abbrev pub pool_spec : Deep (Array m) (NodeDisruptionBudgetSpec m)
    pool_spec =
        record (by_fields (Array m) pool_spec_fields pool_spec_build
          (both x.label_selector (both string_slice (values (ℤ × ℤ))))) {
            copy = (node_disruption_budget_spec_methods m x).deep_copy_into;
          }

    abbrev pub retry_fields : RetrySpec m → (m.Time × Bool)
    retry_fields r = (r.deadline, r.enabled)

    abbrev pub retry_build : (m.Time × Bool) → RetrySpec m
    retry_build a = record { deadline = a.0; enabled = a.1 }

    abbrev pub retry : Deep (Array m) (RetrySpec m)
    retry = record (by_fields (Array m) retry_fields retry_build (both x.time (values Bool))) {
      copy = (retry_spec_methods m x).deep_copy_into;
    }

    abbrev pub disruption_spec_fields :
        NodeDisruptionSpec m
        → (m.LabelSelector × (m.Time × (m.Time × (RetrySpec m × (ℤ × String)))))
    disruption_spec_fields r = (
      r.node_selector,
      (r.start_date, (r.do_not_grant_before, (r.retry, (r.duration, r.type_name)))),
    )

    abbrev pub disruption_spec_build :
        (m.LabelSelector × (m.Time × (m.Time × (RetrySpec m × (ℤ × String)))))
        → NodeDisruptionSpec m
    disruption_spec_build a = record {
      node_selector = a.0;
      start_date = a.1.0;
      do_not_grant_before = a.1.1.0;
      retry = a.1.1.1.0;
      duration = a.1.1.1.1.0;
      type_name = a.1.1.1.1.1;
    }

    abbrev pub disruption_spec : Deep (Array m) (NodeDisruptionSpec m)
    disruption_spec =
        record (by_fields (Array m) disruption_spec_fields disruption_spec_build
          (both x.label_selector (both x.time (both x.time (both retry (values (ℤ × String))))))) {
            copy = (node_disruption_spec_methods m x).deep_copy_into;
          }

    abbrev pub disruption_status_fields :
        NodeDisruptionStatus m → (Ref × (Ref × (m.Time × NodeDisruptionState)))
    disruption_status_fields r =
        (r.disrupted_disruption_budgets, (r.disrupted_nodes, (r.next_retry_date, r.state)))

    abbrev pub disruption_status_build :
        (Ref × (Ref × (m.Time × NodeDisruptionState))) → NodeDisruptionStatus m
    disruption_status_build a = record {
      disrupted_disruption_budgets = a.0;
      disrupted_nodes = a.1.0;
      next_retry_date = a.1.1.0;
      state = a.1.1.1;
    }

    abbrev pub disruption_status : Deep (Array m) (NodeDisruptionStatus m)
    disruption_status =
        record (by_fields (Array m) disruption_status_fields disruption_status_build
          (both status_slice (both string_slice (both x.time (values NodeDisruptionState))))) {
            copy = (node_disruption_status_methods m x).deep_copy_into;
          }
