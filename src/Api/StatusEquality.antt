-- ===== src/Api/StatusEquality.antt =====
-- The comparison of statuses, `reflect.DeepEqual`, against their equality.
use node_disruption_controll.Prelude.{
  Bool, true, List, [], ◌∷◌, ◌≡◌, ◌↔◌, arith, str_eq, str_eq_iff,
}
use node_disruption_controll.Prelude.Int.{ℤ, eq_ℤ}
use node_disruption_controll.Api.Slice.{Slice, nil, of}
use node_disruption_controll.Api.Types.{
  NamespacedName, NodeDisruptionState, DisruptedBudgetStatus, NodeDisruptionStatus, Disruption,
  DisruptionBudgetStatus,
}
use node_disruption_controll.Api.Equality.{
  list_equal, slice_equal, bool_equal, state_equal, name_equal, budget_status_equal,
  disruption_status_equal, disruption_equal, budget_equal,
}

module _ {A : Type 0} (eq : A → A → Bool) (decides : (x y : A) → (eq x y ≡ true) ↔ (x ≡ y)) where
  list_equal_iff : (xs ys : List A) → (list_equal eq xs ys ≡ true) ↔ (xs ≡ ys)
  unfolding list_equal
  list_equal_iff [] [] = (ground arith, ground arith)
  list_equal_iff [] (y ∷ ys) = (ground arith, ground arith)
  list_equal_iff (x ∷ xs) [] = (ground arith, ground arith)
  list_equal_iff (x ∷ xs) (y ∷ ys) = (
    ground (arith, decides x y, list_equal_iff xs ys),
    ground (arith, decides x y, list_equal_iff xs ys),
  )

  slice_equal_iff : (s t : Slice A) → (slice_equal eq s t ≡ true) ↔ (s ≡ t)
  unfolding slice_equal
  slice_equal_iff nil nil = (ground arith, ground arith)
  slice_equal_iff nil (of ys) = (ground arith, ground arith)
  slice_equal_iff (of xs) nil = (ground arith, ground arith)
  slice_equal_iff (of xs) (of ys) =
      (ground (arith, list_equal_iff xs ys), ground (arith, list_equal_iff xs ys))

bool_equal_iff : (a b : Bool) → (bool_equal a b ≡ true) ↔ (a ≡ b)
bool_equal_iff a b = (ground arith, ground arith)

state_equal_iff : (a b : NodeDisruptionState) → (state_equal a b ≡ true) ↔ (a ≡ b)
state_equal_iff a b = (ground arith, ground arith)

eq_ℤ_iff : (a b : ℤ) → (eq_ℤ a b ≡ true) ↔ (a ≡ b)
eq_ℤ_iff a b = (ground arith, ground arith)

name_equal_iff : (a b : NamespacedName) → (name_equal a b ≡ true) ↔ (a ≡ b)
unfolding name_equal
name_equal_iff a b =
    let namespaces = str_eq_iff a.namespace b.namespace in
    let names = str_eq_iff a.name b.name in
    let kinds = str_eq_iff a.kind b.kind in (ground arith, ground arith)

budget_status_equal_iff : (a b : DisruptedBudgetStatus) → (budget_status_equal a b ≡ true) ↔ (a ≡ b)
unfolding budget_status_equal
budget_status_equal_iff a b =
    let references = name_equal_iff a.reference b.reference in
    let reasons = str_eq_iff a.reason b.reason in
    let preparing = bool_equal_iff a.preparing b.preparing in
    let oks = bool_equal_iff a.ok b.ok in (ground arith, ground arith)

-- Two statuses of disruptions compare equal if and only if they are equal, a nil slice and an empty
-- one being different.
pub disruption_status_equal_iff :
    (a b : NodeDisruptionStatus) → (disruption_status_equal a b ≡ true) ↔ (a ≡ b)
unfolding disruption_status_equal
disruption_status_equal_iff a b =
    let states = state_equal_iff a.state b.state in
    let budgets =
      slice_equal_iff budget_status_equal budget_status_equal_iff a.disrupted_disruption_budgets
        b.disrupted_disruption_budgets in
    let nodes = slice_equal_iff str_eq str_eq_iff a.disrupted_nodes b.disrupted_nodes in
    (ground arith, ground arith)

disruption_equal_iff : (a b : Disruption) → (disruption_equal a b ≡ true) ↔ (a ≡ b)
unfolding disruption_equal
disruption_equal_iff a b =
    let names = str_eq_iff a.name b.name in
    let states = str_eq_iff a.state b.state in (ground arith, ground arith)

-- Two statuses of budgets compare equal if and only if they are equal.
budget_equal_iff : (a b : DisruptionBudgetStatus) → (budget_equal a b ≡ true) ↔ (a ≡ b)
unfolding budget_equal
budget_equal_iff a b =
    let nodes = slice_equal_iff str_eq str_eq_iff a.watched_nodes b.watched_nodes in
    let allowed = eq_ℤ_iff a.disruptions_allowed b.disruptions_allowed in
    let current = eq_ℤ_iff a.current_disruptions b.current_disruptions in
    let disruptions =
      slice_equal_iff disruption_equal disruption_equal_iff a.disruptions b.disruptions in
    (ground arith, ground arith)
