-- ===== src/Tests/Checks.antt =====
-- The checks of a disruption on its own, and the choice of a state.
use node_disruption_controll.Prelude.{Bool, true, false, [], ◌∷◌, ◌≡◌, refl, str_eq}
use node_disruption_controll.Api.{pending, granted, rejected, NodeDisruption, DisruptedBudgetStatus}
use node_disruption_controll.Api.Slice.{Slice, of, nil}
use node_disruption_controll.NodeSet.{new_node_set_from_string_list, overlaps}
use node_disruption_controll.Client.Monad.{Result, ok, err}
use node_disruption_controll.Disruption.Settings.{Config, zero_status, is_after_deadline}
use node_disruption_controll.Disruption.Constraints.{
  validate_with_internal_constraints, validate_overlapping_disruption,
}
use node_disruption_controll.Disruption.Refusals.{
  is_conflicting, validate_overlapping-any, internal_constraints-types_ignored,
  internal_constraints-passed, LastCheck,
}
use node_disruption_controll.Disruption.Transition.{decide}
use node_disruption_controll.Tests.Sets.{list_sets-IsLawful}
use node_disruption_controll.Tests.World.{Journal, start, env_of}
use node_disruption_controll.Tests.Fixtures.{disruption, cluster, config}

abbrev second : NodeDisruption
second = disruption "second" pending ("n2" ∷ [])

-- A configuration that rejects overlaps.
abbrev strict : Config
strict = record config { reject_overlapping_disruption = true }

abbrev reboot : NodeDisruption
reboot = record second { spec = record (second.spec) { type_name = "reboot" } }

abbrev drains : Config
drains = record config { node_disruption_types = "drain" ∷ [] }

-- No other disruption has the node "n2".
validate_overlapping-any_example :
    (status : DisruptedBudgetStatus) × (validate_overlapping_disruption
        (env_of cluster)
        second
        ("n2" ∷ [])
        start
      ≡ (ok (false, status), start))
unfolding is_conflicting str_eq new_node_set_from_string_list
validate_overlapping-any_example =
    validate_overlapping-any (env_of cluster) list_sets-IsLawful second start refl

passed_run :
    validate_with_internal_constraints (env_of cluster) strict second start
    ≡ (ok (false, of (zero_status ∷ [])), start)
unfolding validate_with_internal_constraints new_node_set_from_string_list overlaps str_eq
passed_run = refl

internal_constraints-passed_example :
    (between : Journal) × (is_after_deadline (env_of cluster) second.spec.retry start
      ≡ (ok false, between))
    × (false ≡ false)
    × LastCheck (env_of cluster) strict second between start
unfolding new_node_set_from_string_list
internal_constraints-passed_example =
    internal_constraints-passed (env_of cluster) strict second start passed_run

internal_constraints-types_ignored_example :
    validate_with_internal_constraints
      (env_of cluster)
      (record strict { node_disruption_types = "drain" ∷ [] })
      reboot
      start
    ≡ validate_with_internal_constraints (env_of cluster) strict reboot start
internal_constraints-types_ignored_example =
    internal_constraints-types_ignored (env_of cluster) strict reboot ("drain" ∷ []) start refl

abbrev outcome : Result (Bool × Slice DisruptedBudgetStatus) → Bool × Slice DisruptedBudgetStatus
outcome (ok o) = o
outcome (err e) = (false, nil)

refused_run : Result (Bool × Slice DisruptedBudgetStatus) × Journal
unfolding validate_with_internal_constraints new_node_set_from_string_list overlaps str_eq
refused_run = validate_with_internal_constraints (env_of cluster) drains reboot start

refused_run-ok :
    refused_run ≡ (ok ((outcome refused_run.0).0, (outcome refused_run.0).1), refused_run.1)
unfolding refused_run
refused_run-ok = refl

rejected_run : decide (env_of cluster) second 0 true [] start ≡ (ok (rejected, 0), start)
unfolding decide
rejected_run = refl

-- A disruption that is not to be granted before 900 is granted at 1000.
abbrev dated : NodeDisruption
dated = record second { spec = record (second.spec) { do_not_grant_before = 900 } }

granted_run : decide (env_of cluster) dated 0 false [] start ≡ (ok (granted, 0), start)
unfolding decide
granted_run = refl
