-- ===== src/Disruption/Refusals.antt =====
-- The checks that need no budget, against their descriptions.
use node_disruption_controll.Prelude.{
  String, Bool, true, false, not, ◌&&◌, List, [], ◌∷◌, ◌≡◌, ◌⊎◌, inl, inr, refl, arith, any, meets,
  str_eq, ◌==◌, Bool-cases,
}
use node_disruption_controll.Api.{NodeDisruption, DisruptedBudgetStatus}
use node_disruption_controll.Api.Slice.{Slice, items, append_one}
use node_disruption_controll.NodeSet.{IsLawful, new_node_set_from_string_list}
use node_disruption_controll.NodeSet.Laws.{overlaps-new_node_set}
use node_disruption_controll.Client.{Env}
use node_disruption_controll.Client.Monad.{ok, >>=-eq-ok}
use node_disruption_controll.Disruption.Settings.{
  Config, is_after_deadline, node_disruption_reference, refused,
}
use node_disruption_controll.Disruption.Constraints.{
  is_active, conflicts, find_conflict, overlap_status, validate_overlapping_disruption,
  is_type_refused, deadline_reason, validate_overlaps, validate_from_deadline,
  validate_with_internal_constraints,
}

-- Another disruption that is pending or granted and has one of the nodes.
unfoldable pub is_conflicting : String → List String → NodeDisruption → Bool
is_conflicting name nodes other =
    not (str_eq other.meta.name name)
    && (is_active other.status.state && meets (items other.status.disrupted_nodes) nodes)

module _ (env : Env) (lawful : IsLawful env.sets) where
  conflicts-eq-is_conflicting :
      (name : String) (nodes : List String) (other : NodeDisruption)
      → conflicts env name (new_node_set_from_string_list env.sets nodes) other
        ≡ is_conflicting name nodes other
  unfolding conflicts is_conflicting
  conflicts-eq-is_conflicting name nodes other =
      rw (overlaps-new_node_set env.sets lawful (items other.status.disrupted_nodes) nodes)

  find_conflict-any :
      (nd : NodeDisruption) (name : String) (nodes : List String) (others : List NodeDisruption)
      → (overlap_status env nd
          (find_conflict env name (new_node_set_from_string_list env.sets nodes) others)).0
        ≡ any (is_conflicting name nodes) others
  unfolding find_conflict overlap_status
  find_conflict-any nd name nodes [] = refl
  find_conflict-any nd name nodes (other ∷ others) =
      ground (
        arith,
        conflicts-eq-is_conflicting name nodes other,
        find_conflict-any nd name nodes others,
      )

  -- Over a lawful set library, where the disruptions can be listed, the overlap check fails if and
  -- only if one of those listed, of another name and pending or granted, has a node in common with
  -- this one. Which of the two is the older makes no difference, against the comment on the option
  -- and the flag's text: a newer disruption that is pending fails the check as well.
  pub validate_overlapping-any :
      (nd : NodeDisruption) (w : env.World) {others : List NodeDisruption} {w' : env.World}
      → env.list_node_disruptions w ≡ (ok others, w')
      → let nodes = items nd.status.disrupted_nodes in
        (status : DisruptedBudgetStatus) × (validate_overlapping_disruption env nd
            (new_node_set_from_string_list env.sets nodes)
            w
          ≡ (ok (any (is_conflicting nd.meta.name nodes) others, status), w'))
  unfolding validate_overlapping_disruption
  validate_overlapping-any nd w {others = others} h =
      let nodes = items nd.status.disrupted_nodes in
      let found =
        find_conflict env nd.meta.name (new_node_set_from_string_list env.sets nodes) others in
      (
        (overlap_status env nd found).1,
        ground (arith, find_conflict-any nd nd.meta.name nodes others),
      )

module _ (env : Env) (config : Config) (nd : NodeDisruption) where
  -- Once the deadline has passed the disruption is refused, whatever else holds, and the refusal is
  -- added behind the statuses of the attempt before.
  internal_constraints-late :
      (w : env.World) {w' : env.World}
      → is_after_deadline env nd.spec.retry w ≡ (ok true, w')
      → validate_with_internal_constraints env config nd w ≡ (
        ok (
          true,
          append_one nd.status.disrupted_disruption_budgets
              (refused (node_disruption_reference nd) (deadline_reason env nd)),
        ),
        w',
      )
  unfolding validate_with_internal_constraints
  internal_constraints-late w h = ground arith

  -- Where overlaps are rejected, the outcome of the internal constraints is the same for any list
  -- of allowed types.
  pub internal_constraints-types_ignored :
      (types : List String) (w : env.World)
      → config.reject_overlapping_disruption ≡ true
      → validate_with_internal_constraints env
          (record config { node_disruption_types = types })
          nd
          w
        ≡ validate_with_internal_constraints env config nd w
  unfolding validate_with_internal_constraints
  internal_constraints-types_ignored types w h = ground arith

  -- Where overlaps are not rejected, the internal constraints never pass, if they end without an
  -- error, for a disruption whose type is not allowed.
  internal_constraints-type_refused :
      (w : env.World) {failed : Bool} {statuses : Slice DisruptedBudgetStatus} {w' : env.World}
      → config.reject_overlapping_disruption ≡ false
      → is_type_refused env config nd.spec.type_name ≡ true
      → validate_with_internal_constraints env config nd w ≡ (ok (failed, statuses), w')
      → failed ≡ true
  unfolding validate_with_internal_constraints
  internal_constraints-type_refused w o t h = ground arith

  -- The last two checks have passed: the one on overlaps where that is on, else the one on types.
  abbrev pub LastCheck : env.World → env.World → Type 0
  LastCheck w w' =
      (config.reject_overlapping_disruption ≡ true)
        × ((status : DisruptedBudgetStatus) × (validate_overlapping_disruption env nd
                (new_node_set_from_string_list env.sets (items nd.status.disrupted_nodes)) w
              ≡ (ok (false, status), w')))
      ⊎ (config.reject_overlapping_disruption ≡ false)
        × (is_type_refused env config nd.spec.type_name ≡ false)

  overlaps-passed :
      (disrupted : env.sets.Set) (w : env.World) {statuses : Slice DisruptedBudgetStatus}
      {w' : env.World}
      → validate_overlaps env nd disrupted w ≡ (ok (false, statuses), w')
      → (status : DisruptedBudgetStatus) × (validate_overlapping_disruption env nd disrupted w
          ≡ (ok (false, status), w'))
  unfolding validate_overlaps
  overlaps-passed disrupted w h =
      let ((failed, status), between, checked, rest) =
        >>=-eq-ok (validate_overlapping_disruption env nd disrupted) _ w h in
      (status, ground arith)

  from_deadline-passed :
      (late : Bool) (w : env.World) {statuses : Slice DisruptedBudgetStatus} {w' : env.World}
      → let disrupted = new_node_set_from_string_list env.sets (items nd.status.disrupted_nodes) in
        validate_from_deadline env config nd disrupted late w ≡ (ok (false, statuses), w')
        → (late ≡ false)
          × ((config.reject_empty_node_disruption && (env.sets.len disrupted == 0)) ≡ false)
          × LastCheck w w'
  unfolding validate_from_deadline
  from_deadline-passed late w {statuses = statuses} h =
      elim (Bool-cases config.reject_overlapping_disruption) [
        | inl on ↦ (
          ground arith,
          ground arith,
          inl (on, overlaps-passed _ w {statuses = statuses} (ground arith)),
        )
        | inr off ↦ (ground arith, ground arith, inr (off, ground arith))
      ]

  -- If the internal constraints pass, the deadline had not passed at the look at the clock, there
  -- were nodes if empty disruptions are rejected, and either overlaps are rejected and the overlap
  -- check has passed, or overlaps are not rejected and the type is allowed.
  pub internal_constraints-passed :
      (w : env.World) {statuses : Slice DisruptedBudgetStatus} {w' : env.World}
      → validate_with_internal_constraints env config nd w ≡ (ok (false, statuses), w')
      → let disrupted = new_node_set_from_string_list env.sets (items nd.status.disrupted_nodes) in
        (between : env.World) × (is_after_deadline env nd.spec.retry w ≡ (ok false, between))
        × ((config.reject_empty_node_disruption && (env.sets.len disrupted == 0)) ≡ false)
        × LastCheck between w'
  unfolding validate_with_internal_constraints
  internal_constraints-passed w h =
      let (late, between, asked, rest) = >>=-eq-ok (is_after_deadline env nd.spec.retry) _ w h in
      let (in_time, some_nodes, last) = from_deadline-passed late between rest in
      (between, rw in_time at asked, some_nodes, last)
