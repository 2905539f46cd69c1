-- ===== src/Disruption/Selection.antt =====
-- The first half of `ValidateWithBudgetConstraints` against its description: which budgets a
-- disruption concerns, and which of those refuse it.
use node_disruption_controll.Prelude.{
  Bool, true, not, ◌&&◌, Option, none, some, List, [], ◌∷◌, ◌≡◌, refl, arith, all, keep_if,
  contains, if◌then◌else◌, ◌⊎◌, inl, inr,
}
use node_disruption_controll.Api.{NodeDisruption}
use node_disruption_controll.Client.{Env}
use node_disruption_controll.Budget
use node_disruption_controll.Budget.{Budget}
use node_disruption_controll.Disruption.Validation.{Selection, blocked, impacted, select_budgets}

-- The first member that passes a test.
abbrev find_first {ℓ} : {A : Type ℓ} → (A → Bool) → List A → Option A
find_first p [] = none
find_first p (x ∷ xs) = if p x then some x else find_first p xs

Selection-cases :
    (s : Selection) → ((b : Budget) × (s ≡ blocked b)) ⊎ ((bs : List Budget) × (s ≡ impacted bs))
Selection-cases (blocked b) = inl (b, refl)
Selection-cases (impacted bs) = inr (bs, refl)

module _ (env : Env) (nd : NodeDisruption) (disrupted : env.sets.Set) where
  -- The budget is for disruptions of this type, and watches a node of this one.
  unfoldable pub concerns : Budget → Bool
  concerns b =
      contains (Budget.get_supported_disruption_types b) nd.spec.type_name
      && Budget.is_impacted env b disrupted

  -- The budget is concerned and has no disruption left.
  unfoldable pub refuses : Budget → Bool
  unfolding concerns
  refuses b = concerns b && not (Budget.tolerate_disruption env b disrupted)

  -- The outcome in one look at the list.
  pub selection_of : List Budget → Selection
  unfolding refuses
  selection_of budgets = elim (find_first refuses budgets) [
    | some b ↦ blocked b
    | none ↦ impacted (keep_if concerns budgets)
  ]

  -- The loop over the budgets blocks on the first budget of the list that is concerned and does
  -- not tolerate the disruption; if there is none, it selects the budgets that are concerned, in
  -- their order.
  pub select_budgets-eq-selection_of :
      (budgets : List Budget) → select_budgets env nd disrupted budgets ≡ selection_of budgets
  unfolding select_budgets selection_of
  select_budgets-eq-selection_of [] = refl
  select_budgets-eq-selection_of (b ∷ bs) = ground (arith, select_budgets-eq-selection_of bs)

  -- If the loop selects budgets, no budget of the list refuses.
  pub impacted-all :
      (budgets selected : List Budget)
      → select_budgets env nd disrupted budgets ≡ impacted selected
      → (all (λ b. not (refuses b)) budgets ≡ true) × (selected ≡ keep_if concerns budgets)
  unfolding select_budgets refuses
  impacted-all [] selected h = ground arith
  impacted-all (b ∷ bs) selected h = elim (Selection-cases (select_budgets env nd disrupted bs)) [
    | inl (b', e) ↦ ground arith
    | inr (rest, e) ↦ ground (arith, impacted-all bs rest e)
  ]

  -- A concerned budget that does not refuse tolerates the disruption.
  pub tolerates-of_refuses :
      (b : Budget)
      → not (refuses b) ≡ true
      → concerns b ≡ true
      → Budget.tolerate_disruption env b disrupted ≡ true
  unfolding refuses
  tolerates-of_refuses b h c = ground arith
