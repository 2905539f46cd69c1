-- ===== src/Cluster/Counted.antt =====
-- A reconciliation that grants, seen against what its reads show.
use node_disruption_controll.Prelude.{
  ℕ, suc, ◌+◌, String, Bool, true, false, ◌&&◌, List, [], ◌∷◌, ◌≡◌, refl, sym, ap, ◌∙◌, arith,
  contains, meets, if◌then◌else◌, Bool-cases, inl, inr,
}
use node_disruption_controll.Api.{
  LabelSelector, NodeDisruptionState, NodeDisruption, Disruption, unknown, pending, granted,
  rejected,
}
use node_disruption_controll.NodeSet.{new_node_set_from_string_list, overlaps}
use node_disruption_controll.NodeSet.Laws.{meets_congr, overlaps-eq-meets, contains-new_node_set}
use node_disruption_controll.Client.{Env}
use node_disruption_controll.Client.Monad.{Result, ok, >>=-eq-ok}
use node_disruption_controll.Resolver.{get_node_from_node_selector}
use node_disruption_controll.Budget.Disruptions.{
  is_unknown, is_granted, record_disruption, visit_disruption, visit_disruptions,
}
use node_disruption_controll.Cluster.Reads.{Setting, holds, holders, Shows}

module _ (e : Env) (s : Setting) (nds : List NodeDisruption) (shown : Shows e s nds) where
  -- A set with the budget's nodes overlaps one with a disruption's nodes if and only if the setting
  -- says so.
  overlaps-shown :
      (nodes impacted : e.sets.Set) (selector : LabelSelector)
      → ((a : String) → contains (e.sets.elements nodes) a ≡ contains s.selected a)
      → ((a : String) → contains (e.sets.elements impacted) a ≡ contains (s.nodes_of selector) a)
      → overlaps e.sets nodes impacted ≡ meets s.selected (s.nodes_of selector)
  overlaps-shown nodes impacted selector h k =
      overlaps-eq-meets e.sets shown.lawful nodes impacted
      ∙ meets_congr (e.sets.elements nodes) s.selected (e.sets.elements impacted)
          (s.nodes_of selector) h k

  -- The same through the lists of names that are stored in the statuses.
  pub overlaps-stored :
      (nodes impacted : List String) (selector : LabelSelector)
      → ((a : String) → contains nodes a ≡ contains s.selected a)
      → ((a : String) → contains impacted a ≡ contains (s.nodes_of selector) a)
      → overlaps e.sets
          (new_node_set_from_string_list e.sets nodes)
          (new_node_set_from_string_list e.sets impacted)
        ≡ meets s.selected (s.nodes_of selector)
  overlaps-stored nodes impacted selector h k =
      overlaps-shown (new_node_set_from_string_list e.sets nodes)
        (new_node_set_from_string_list e.sets impacted) selector
        (λ a. contains-new_node_set e.sets shown.lawful nodes a ∙ h a)
        (λ a. contains-new_node_set e.sets shown.lawful impacted a ∙ k a)

  -- What one turn of the loop adds to the count.
  record_disruption-count :
      (nd : NodeDisruption) (count : ℕ) (found : List Disruption) (both : Bool)
      → (if both then record_disruption nd (count, found) else (count, found)).0
        ≡ (if is_granted nd.status.state && both then suc count else count)
  unfolding record_disruption
  record_disruption-count nd count found both = ground arith

  is_unknown-is_granted :
      (state : NodeDisruptionState) → is_unknown state ≡ true → is_granted state ≡ false
  is_unknown-is_granted unknown h = refl
  is_unknown-is_granted pending h = refl
  is_unknown-is_granted granted h = ground arith
  is_unknown-is_granted rejected h = refl

  result_count :
      {a b : ℕ × List Disruption} {w w' : e.World}
      → ◌≡◌ {A = Result (ℕ × List Disruption) × e.World} (ok a, w) (ok b, w')
      → b.0 ≡ a.0
  result_count h = ground arith

  visit_disruption-holds :
      (nodes : e.sets.Set) (nd : NodeDisruption) (acc : ℕ × List Disruption) (w : e.World)
      {acc' : ℕ × List Disruption} {w' : e.World}
      → ((a : String) → contains (e.sets.elements nodes) a ≡ contains s.selected a)
      → visit_disruption e nodes nd acc w ≡ (ok acc', w')
      → acc'.0 ≡ (if holds s nd then suc acc.0 else acc.0)
  unfolding visit_disruption
  visit_disruption-holds nodes nd (count, found) w {acc' = acc'} same h =
      elim (Bool-cases (is_unknown nd.status.state)) [
        | inl fresh ↦
            let k = rw fresh at h in
            result_count k
            ∙ ap
                (λ g.
                  if g && meets s.selected (s.nodes_of nd.spec.node_selector)
                  then suc count
                  else count)
                (sym (is_unknown-is_granted nd.status.state fresh))
        | inr seen ↦
            let k = rw seen at h in
            let (impacted, w₁, looked, h₁) =
              >>=-eq-ok (get_node_from_node_selector e nd.spec.node_selector) _ w k in
            let agrees =
              overlaps-shown nodes impacted nd.spec.node_selector same
                (shown.nodes_shown nd.spec.node_selector w impacted w₁ looked) in
            result_count h₁
            ∙ record_disruption-count nd count found (overlaps e.sets nodes impacted)
            ∙ ap (λ both. if is_granted nd.status.state && both then suc count else count) agrees
      ]

  pub visit_disruptions-holders :
      (nodes : e.sets.Set) (visited : List NodeDisruption) (acc : ℕ × List Disruption) (w : e.World)
      {acc' : ℕ × List Disruption} {w' : e.World}
      → ((a : String) → contains (e.sets.elements nodes) a ≡ contains s.selected a)
      → visit_disruptions e nodes visited acc w ≡ (ok acc', w')
      → acc'.0 ≡ acc.0 + holders s visited
  unfolding visit_disruptions
  visit_disruptions-holders nodes [] acc w same h = ground arith
  visit_disruptions-holders nodes (nd ∷ rest) acc w {acc' = acc'} same h =
      let (acc₁, w₁, first, h₁) = >>=-eq-ok (visit_disruption e nodes nd acc) _ w h in
      ground (
        arith,
        visit_disruption-holds nodes nd acc w same first,
        visit_disruptions-holders nodes rest acc₁ w₁ same h₁,
      )
