-- ===== src/Budget/Counting.antt =====
-- What `ResolveDisruption` counts, while the nodes of the cluster stay as they are.
use node_disruption_controll.Prelude.{
  ℕ, suc, ◌+◌, Bool, not, ◌&&◌, List, [], ◌∷◌, ◌++◌, map, ◌≡◌, arith, ◌∙◌, ap, count_if, keep_if,
  if◌then◌else◌,
}
use mathlib.Core.List.{append-nil, append_assoc}
use node_disruption_controll.Api.{LabelSelector, NodeDisruption, Disruption}
use node_disruption_controll.NodeSet.{overlaps}
use node_disruption_controll.Client.{Env}
use node_disruption_controll.Client.Monad.{Result, ok, >>=-ok}
use node_disruption_controll.Resolver.{get_node_from_node_selector}
use node_disruption_controll.Budget.Disruptions.{
  is_unknown, is_granted, summary, visit_disruption, visit_disruptions,
}

module _ (env : Env) (nodes_of : LabelSelector → env.sets.Set) (selected : env.sets.Set) where
  -- The disruption has been looked at by its reconciler, and has a node among those selected.
  pub touches : NodeDisruption → Bool
  touches nd =
      not (is_unknown nd.status.state)
      && overlaps env.sets selected (nodes_of nd.spec.node_selector)

  -- It touches, and it is granted.
  unfoldable pub uses_budget : NodeDisruption → Bool
  unfolding touches
  uses_budget nd = touches nd && is_granted nd.status.state

  -- Reads of nodes give the same answer at any time.
  abbrev pub StableNodes : Type 0
  StableNodes =
      (s : LabelSelector) (w : env.World)
      → (get_node_from_node_selector env s w).0 ≡ ok (nodes_of s)

  -- What the loop adds to its accumulator for one disruption.
  abbrev add_disruption : NodeDisruption → ℕ × List Disruption → ℕ × List Disruption
  add_disruption nd (count, found) = (
    if uses_budget nd then suc count else count,
    if touches nd then found ++ (summary nd ∷ []) else found,
  )

  visit_disruption_lem :
      (stable : StableNodes) (nd : NodeDisruption) (acc : ℕ × List Disruption) (w : env.World)
      → (visit_disruption env selected nd acc w).0 ≡ ok (add_disruption nd acc)
  unfolding visit_disruption uses_budget
  visit_disruption_lem stable nd (count, found) w = ground (arith, stable nd.spec.node_selector w)

  add_disruption_lem :
      (nd : NodeDisruption) (acc : ℕ × List Disruption) (n : ℕ) (rest : List Disruption)
      → ◌≡◌ {A = ℕ × List Disruption}
          ((add_disruption nd acc).0 + n, (add_disruption nd acc).1 ++ rest)
          (
            acc.0 + (if uses_budget nd then suc n else n),
            acc.1 ++ (if touches nd then summary nd ∷ rest else rest),
          )
  unfolding uses_budget
  add_disruption_lem nd (count, found) n rest =
      let assoc = append_assoc found (summary nd ∷ []) rest in ground arith

  if_map :
      (nd : NodeDisruption) (nds : List NodeDisruption)
      → (if touches nd
          then summary nd ∷ map summary (keep_if touches nds)
          else map summary (keep_if touches nds))
        ≡ map summary (keep_if touches (nd ∷ nds))
  if_map nd nds = ground arith

  -- If reads of nodes give the same answer in every world, the loop over the disruptions adds to
  -- the count those that are granted and have a node among the selected ones, and to the list, in
  -- their order, all those that have one and whose state is not unknown.
  pub visit_disruptions_lem :
      (stable : StableNodes) (nds : List NodeDisruption) (count : ℕ) (found : List Disruption)
      (w : env.World)
      → (visit_disruptions env selected nds (count, found) w).0
        ≡ ok (count + count_if uses_budget nds, found ++ map summary (keep_if touches nds))
  unfolding visit_disruptions
  visit_disruptions_lem stable [] count found w = ground (arith, append-nil found)
  visit_disruptions_lem stable (nd ∷ nds) count found w =
      let acc = add_disruption nd (count, found) in
      let step = visit_disruption_lem stable nd (count, found) w in
      let goes_on =
        >>=-ok (visit_disruption env selected nd (count, found))
          (visit_disruptions env selected nds) w step in
      let rest =
        visit_disruptions_lem stable nds acc.0 acc.1
          (visit_disruption env selected nd (count, found) w).1 in
      ap (λ (r : Result (ℕ × List Disruption) × env.World). r.0) goes_on
      ∙ rest
      ∙ ap ok (
          add_disruption_lem nd (count, found) (count_if uses_budget nds)
            (map summary (keep_if touches nds))
          ∙ ap (λ l. (count + count_if uses_budget (nd ∷ nds), found ++ l)) (if_map nd nds))
