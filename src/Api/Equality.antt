-- ===== src/Api/Equality.antt =====
-- `reflect.DeepEqual` on the status of each resource, which decides whether the status is
-- written. Dates are compared as instants: `reflect.DeepEqual` compares their representations, which
-- agree with that for dates that are zero or read from the API server, while a date just taken
-- from the clock differs from a stored one also where the instants are the same. For a retry interval
-- that is positive the instants are then not the same: a disruption whose stored date is not
-- over is not reconciled.
use node_disruption_controll.Prelude.{Bool, true, false, ◌&&◌, List, [], ◌∷◌, ◌==◌, str_eq}
use node_disruption_controll.Prelude.Int.{eq_ℤ}
use node_disruption_controll.Api.Slice.{Slice, nil, of}
use node_disruption_controll.Api.Types.{
  NamespacedName, NodeDisruptionState, unknown, pending, granted, rejected, DisruptedBudgetStatus,
  NodeDisruptionStatus, Disruption, DisruptionBudgetStatus,
}

module _ {ℓ} {A : Type ℓ} (eq : A → A → Bool) where
  unfoldable pub list_equal : List A → List A → Bool
  list_equal [] [] = true
  list_equal (x ∷ xs) (y ∷ ys) = eq x y && list_equal xs ys
  list_equal _ _ = false

  unfoldable pub slice_equal : Slice A → Slice A → Bool
  unfolding list_equal
  slice_equal nil nil = true
  slice_equal (of xs) (of ys) = list_equal xs ys
  slice_equal _ _ = false

abbrev pub bool_equal : Bool → Bool → Bool
bool_equal true true = true
bool_equal false false = true
bool_equal _ _ = false

abbrev pub state_equal : NodeDisruptionState → NodeDisruptionState → Bool
state_equal unknown unknown = true
state_equal pending pending = true
state_equal granted granted = true
state_equal rejected rejected = true
state_equal _ _ = false

-- `==` on `NamespacedName`
unfoldable pub name_equal : NamespacedName → NamespacedName → Bool
name_equal a b = str_eq a.namespace b.namespace && (str_eq a.name b.name && str_eq a.kind b.kind)

unfoldable pub budget_status_equal : DisruptedBudgetStatus → DisruptedBudgetStatus → Bool
unfolding name_equal
budget_status_equal a b =
    name_equal a.reference b.reference
    && (str_eq a.reason b.reason && (bool_equal a.preparing b.preparing && bool_equal a.ok b.ok))

unfoldable pub disruption_status_equal : NodeDisruptionStatus → NodeDisruptionStatus → Bool
unfolding slice_equal budget_status_equal
disruption_status_equal a b =
    state_equal a.state b.state
    && (slice_equal budget_status_equal a.disrupted_disruption_budgets
          b.disrupted_disruption_budgets
        && (slice_equal str_eq a.disrupted_nodes b.disrupted_nodes
            && (a.next_retry_date == b.next_retry_date)))

unfoldable pub disruption_equal : Disruption → Disruption → Bool
disruption_equal a b = str_eq a.name b.name && str_eq a.state b.state

unfoldable pub budget_equal : DisruptionBudgetStatus → DisruptionBudgetStatus → Bool
unfolding slice_equal disruption_equal
budget_equal a b =
    slice_equal str_eq a.watched_nodes b.watched_nodes
    && (eq_ℤ a.disruptions_allowed b.disruptions_allowed
        && (eq_ℤ a.current_disruptions b.current_disruptions
            && slice_equal disruption_equal a.disruptions b.disruptions))
