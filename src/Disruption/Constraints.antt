-- ===== src/Disruption/Constraints.antt =====
-- The checks that need no budget: `ValidateOverlappingDisruption` and `ValidateWithInternalConstraints`
-- (internal/controller/nodedisruption_controller.go).
use node_disruption_controll.Prelude.{
  String, ◌<>◌, Bool, true, false, not, ◌&&◌, Option, none, some, List, [], ◌∷◌, length, contains,
  str_eq, ◌==◌, if◌then◌else◌,
}
use node_disruption_controll.Api.{
  NodeDisruptionState, pending, granted, DisruptedBudgetStatus, NodeDisruption,
}
use node_disruption_controll.Api.Slice.{Slice, nil, of, items, append_one}
use node_disruption_controll.NodeSet.{new_node_set_from_string_list, overlaps}
use node_disruption_controll.Client.{Env}
use node_disruption_controll.Client.Monad.{Action, pure, ◌>>=◌}
use node_disruption_controll.Resolver.Selectors.{join}
use node_disruption_controll.Disruption.Settings.{
  Config, zero_status, node_disruption_reference, refused, is_after_deadline,
}

-- A disruption that is pending or granted holds its nodes.
abbrev pub is_active : NodeDisruptionState → Bool
is_active pending = true
is_active granted = true
is_active _ = false

module _ (env : Env) where
  -- The test that the loop makes of another disruption.
  unfoldable pub conflicts : String → env.sets.Set → NodeDisruption → Bool
  conflicts name disrupted other =
      not (str_eq other.meta.name name)
      && (is_active other.status.state
          && overlaps env.sets
              (new_node_set_from_string_list env.sets (items other.status.disrupted_nodes))
              disrupted)

  -- The loop: the name of the first disruption in conflict.
  unfoldable pub find_conflict : String → env.sets.Set → List NodeDisruption → Option String
  unfolding conflicts
  find_conflict name disrupted [] = none
  find_conflict name disrupted (other ∷ others) =
      let rest = find_conflict name disrupted others in
      if conflicts name disrupted other then some other.meta.name else rest

  unfoldable pub overlap_status : NodeDisruption → Option String → Bool × DisruptedBudgetStatus
  overlap_status nd none = (false, zero_status)
  overlap_status nd (some name) = (
    true,
    refused (node_disruption_reference nd)
        ("Selected node(s) overlap with another disruption: ”" <> (name <> "\"")),
  )

  unfoldable pub validate_overlapping_disruption :
      NodeDisruption → env.sets.Set → Action env.World (Bool × DisruptedBudgetStatus)
  unfolding find_conflict overlap_status
  validate_overlapping_disruption nd disrupted = do
    others ← env.list_node_disruptions
    pure (overlap_status nd (find_conflict nd.meta.name disrupted others))

  abbrev pub deadline_reason : NodeDisruption → String
  deadline_reason nd =
      "Failed to grant maintenance before deadline (deadline: "
      <> (env.format_time nd.spec.retry.deadline <> ")")

  abbrev types_reason : Config → String
  types_reason config =
      "Type of node disruption provided is not allowed (supported: ["
      <> (join config.node_disruption_types " "
          <> "]) (see --node-disruption-types on the controller)")

  -- `len(types) != 0 && !slices.Contains(types, t)`
  pub is_type_refused : Config → String → Bool
  is_type_refused config type_name =
      not (length config.node_disruption_types == 0)
      && not (contains config.node_disruption_types type_name)

  -- Where overlaps are rejected the method ends with the overlap check.
  unfoldable pub validate_overlaps :
      NodeDisruption → env.sets.Set → Action env.World (Bool × Slice DisruptedBudgetStatus)
  unfolding validate_overlapping_disruption
  validate_overlaps nd disrupted = do
    (failed, status) ← validate_overlapping_disruption nd disrupted
    pure (failed, of (status ∷ []))

  -- The method from where it knows whether the deadline has passed.
  unfoldable pub validate_from_deadline :
      Config
      → NodeDisruption
      → env.sets.Set
      → Bool
      → Action env.World (Bool × Slice DisruptedBudgetStatus)
  unfolding validate_overlaps is_type_refused join
  validate_from_deadline config nd disrupted late =
      if late
      then pure (
        true,
        append_one nd.status.disrupted_disruption_budgets
            (refused (node_disruption_reference nd) (deadline_reason nd)),
      )
      else if config.reject_empty_node_disruption && (env.sets.len disrupted == 0)
      then pure
          (true, of (refused (node_disruption_reference nd) "No node matching label selector" ∷ []))
      else if config.reject_overlapping_disruption
      then validate_overlaps nd disrupted
      else if is_type_refused config nd.spec.type_name
      then pure (true, of (refused (node_disruption_reference nd) (types_reason config) ∷ []))
      else pure (false, nil)

  unfoldable pub validate_with_internal_constraints :
      Config → NodeDisruption → Action env.World (Bool × Slice DisruptedBudgetStatus)
  unfolding is_after_deadline validate_from_deadline
  validate_with_internal_constraints config nd = do
    late ← is_after_deadline env nd.spec.retry
    validate_from_deadline config nd
        (new_node_set_from_string_list env.sets (items nd.status.disrupted_nodes)) late
