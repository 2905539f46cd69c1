-- ===== src/Cluster/Granted.antt =====
-- A reconciliation of a disruption that ends granted, where its reads show the cluster: the budget had
-- room for it.
use node_disruption_controll.Prelude.{
  ℕ, ◌+◌, ◌≤◌, ◌^◌, String, Bool, true, ◌&&◌, meets, ◌⊎◌, inl, inr, List, ◌≡◌, refl, sym, ap, ◌∙◌,
  subst, arith, contains,
}
use node_disruption_controll.Prelude.Int.{pos, ◌≤ℤ◌, IsSmall}
use node_disruption_controll.Api.{
  NodeDisruptionState, ApplicationDisruptionBudgetSpec, unknown, pending, granted, rejected,
  NodeDisruption, DisruptedBudgetStatus,
}
use node_disruption_controll.Api.Slice.{Slice, items}
use node_disruption_controll.Client.{Env}
use node_disruption_controll.Client.Monad.{Result, ok, >>=-eq-ok}
use node_disruption_controll.Resolver.{get_node_from_node_selector}
use node_disruption_controll.Budget
use node_disruption_controll.Budget.{application}
use node_disruption_controll.Budget.Application
use node_disruption_controll.Budget.Disruptions.{is_granted}
use node_disruption_controll.NodeSet.Laws.{contains-to_string_list}
use node_disruption_controll.Disruption.Settings.{Config, get_retry_date}
use node_disruption_controll.Disruption.Transition.{
  validate, conclude, transition_from, try_transition_to_granted, sync, reconcile_single,
}
use node_disruption_controll.Disruption.Selection.{concerns}
use node_disruption_controll.Disruption.Granting.{IsGrounded, try_transition_to_granted-IsGrounded}
use node_disruption_controll.Disruption.Capacity.{IsGrounded-fits}
use node_disruption_controll.Cluster.Reads.{Setting, holds, holders, Shows}
use node_disruption_controll.Cluster.Counted.{overlaps-stored}
use node_disruption_controll.Cluster.Found.{get_all_budgets-IsListed}

module _ (e : Env) (config : Config) where
  result_nd :
      {a b : NodeDisruption} {w w' : e.World}
      → ◌≡◌ {A = Result NodeDisruption × e.World} (ok a, w) (ok b, w')
      → a ≡ b
  result_nd h = ground arith

  and-true : {a b : Bool} → a ≡ true → b ≡ true → (a && b) ≡ true
  and-true h k = ground arith

  and-left : {a : Bool} (b : Bool) → (a && b) ≡ true → a ≡ true
  and-left b h = ground arith

  and-right : (a : Bool) {b : Bool} → (a && b) ≡ true → b ≡ true
  and-right a h = ground arith

  is_granted-true : (state : NodeDisruptionState) → is_granted state ≡ true → state ≡ granted
  is_granted-true unknown h = ground arith
  is_granted-true pending h = ground arith
  is_granted-true granted h = refl
  is_granted-true rejected h = ground arith

  conclude-spec :
      (nd : NodeDisruption) (next : ℕ) (checked : Bool × Slice DisruptedBudgetStatus) (w : e.World)
      {nd' : NodeDisruption} {w' : e.World}
      → conclude e nd next checked w ≡ (ok nd', w')
      → nd'.spec ≡ nd.spec
  unfolding conclude
  conclude-spec nd next checked w h = ground arith

  try_transition_to_granted-spec :
      (nd : NodeDisruption) (w : e.World) {nd' : NodeDisruption} {w' : e.World}
      → try_transition_to_granted e config nd w ≡ (ok nd', w')
      → nd'.spec ≡ nd.spec
  unfolding try_transition_to_granted
  try_transition_to_granted-spec nd w h =
      let (next, w₁, dated, h₁) = >>=-eq-ok (get_retry_date e config nd) _ w h in
      let (budgets, w₂, listed, h₂) = >>=-eq-ok (Budget.get_all_budgets_in_sync e) _ w₁ h₁ in
      let (checked, w₃, valid, h₃) = >>=-eq-ok (validate e config nd budgets) _ w₂ h₂ in
      conclude-spec nd next checked w₃ h₃

  module _ (s : Setting) (nds : List NodeDisruption) (shown : Shows e s nds) where
    -- Where a disruption whose stored nodes are those of its selector is grounded, the setting's
    -- budget has room for it, if it selects one of the nodes.
    grant-fits :
        (nd : NodeDisruption) (statuses : List DisruptedBudgetStatus)
        → ((a : String)
            → contains (items nd.status.disrupted_nodes) a
              ≡ contains (s.nodes_of nd.spec.node_selector) a)
        → IsGrounded e config nd statuses
        → meets s.selected (s.nodes_of nd.spec.node_selector) ≡ true
        → contains s.spec.supported_node_disruption_types nd.spec.type_name ≡ true
        → IsSmall s.spec.max_disruptions
        → holders s nds ≤ 2 ^ 51
        → pos (holders s nds + 1) ≤ℤ s.spec.max_disruptions
    unfolding concerns Budget.is_impacted Budget.get_supported_disruption_types
        Application.is_impacted
    grant-fits nd statuses stored grounds meeting supported small few =
        let found =
          get_all_budgets-IsListed e s nds shown grounds.before_read grounds.budgets_read in
        let read = found.is_counted in
        let same = read.is_budget.1 in
        let agrees =
          overlaps-stored e s nds shown (items found.adb.status.watched_nodes)
            (items nd.status.disrupted_nodes) nd.spec.node_selector read.watched stored in
        let concerned =
          and-true
            (ap (λ sp. contains sp.supported_node_disruption_types nd.spec.type_name) same
              ∙ supported)
            (agrees ∙ meeting) in
        subst
          (λ (sp : ApplicationDisruptionBudgetSpec). pos (holders s nds + 1) ≤ℤ sp.max_disruptions)
          same
          (IsGrounded-fits e config nd statuses grounds found.before found.after found.adb
            (holders s nds) found.listed concerned read.counted
            (subst (λ sp. IsSmall sp.max_disruptions) (sym same) small) few)

    transition_from-fits :
        (state : NodeDisruptionState) (nd : NodeDisruption) (w : e.World) {nd' : NodeDisruption}
        {w' : e.World}
        → nd.status.state ≡ state
        → ((a : String)
            → contains (items nd.status.disrupted_nodes) a
              ≡ contains (s.nodes_of nd.spec.node_selector) a)
        → transition_from e state config nd w ≡ (ok nd', w')
        → contains s.spec.supported_node_disruption_types nd.spec.type_name ≡ true
        → IsSmall s.spec.max_disruptions
        → holders s nds ≤ 2 ^ 51
        → holds s nd' ≡ true
        → (holds s nd ≡ true) ⊎ (pos (holders s nds + 1) ≤ℤ s.spec.max_disruptions)
    unfolding transition_from
    transition_from-fits unknown nd w at stored h supported small few held =
        absurd (ground (arith, result_nd h, held))
    transition_from-fits pending nd w at stored h supported small few held =
        let (decided, between, made, rest) =
          >>=-eq-ok (try_transition_to_granted e config nd) _ w h in
        let there = ap (holds s) (result_nd rest) ∙ held in
        let same = try_transition_to_granted-spec nd w made in
        let meeting =
          ap (λ sp. meets s.selected (s.nodes_of sp.node_selector)) (sym same)
          ∙ and-right _ there in
        inr (
          grant-fits nd (items decided.status.disrupted_disruption_budgets) stored
            (try_transition_to_granted-IsGrounded e config nd w made
              (is_granted-true decided.status.state (and-left _ there)))
            meeting supported small few)
    transition_from-fits granted nd w at stored h supported small few held =
        inl (ap (holds s) (result_nd h) ∙ held)
    transition_from-fits rejected nd w at stored h supported small few held =
        absurd (ground (arith, result_nd h, held))

    sync-stored :
        (nd : NodeDisruption) (w : e.World) {nd' : NodeDisruption} {w' : e.World}
        → sync e nd w ≡ (ok nd', w')
        → (nd'.spec ≡ nd.spec)
          × (nd'.status.state ≡ nd.status.state)
          × ((a : String)
              → contains (items nd'.status.disrupted_nodes) a
                ≡ contains (s.nodes_of nd.spec.node_selector) a)
    unfolding sync
    sync-stored nd w h =
        let (nodes, w₁, looked, h₁) =
          >>=-eq-ok (get_node_from_node_selector e nd.spec.node_selector) _ w h in
        let same = sym (result_nd h₁) in
        (
          ap (λ (x : NodeDisruption). x.spec) same,
          ap (λ (x : NodeDisruption). x.status.state) same,
          λ a.
              ap (λ (x : NodeDisruption). contains (items x.status.disrupted_nodes) a) same
              ∙ contains-to_string_list e.sets shown.lawful nodes a
              ∙ shown.nodes_shown nd.spec.node_selector w nodes w₁ looked a,
        )

    -- If the reconciliation of a disruption of a type that the budget supports succeeds and the
    -- disruption then holds a place of the budget, it had one before, or the holders of the
    -- cluster and one are at most the budget's maximum. Condition: the reads show the cluster, the
    -- maximum is at most 2 ^ 51 in magnitude, and there are at most 2 ^ 51 holders.
    pub reconcile_single-fits :
        (nd : NodeDisruption) (w : e.World) {nd' : NodeDisruption} {w' : e.World}
        → reconcile_single e config nd w ≡ (ok nd', w')
        → contains s.spec.supported_node_disruption_types nd.spec.type_name ≡ true
        → IsSmall s.spec.max_disruptions
        → holders s nds ≤ 2 ^ 51
        → holds s nd' ≡ true
        → (holds s nd ≡ true) ⊎ (pos (holders s nds + 1) ≤ℤ s.spec.max_disruptions)
    unfolding reconcile_single
    reconcile_single-fits nd w h supported small few held =
        let (synced, w₁, looked, h₁) = >>=-eq-ok (sync e nd) _ w h in
        let (same_spec, same_state, stored) = sync-stored nd w looked in
        let same_holds : holds s synced ≡ holds s nd = λ i.
          is_granted (same_state i) && meets s.selected (s.nodes_of (same_spec i).node_selector) in
        elim (transition_from-fits synced.status.state synced w₁ refl
          (λ a. stored a ∙ ap (λ sp. contains (s.nodes_of sp.node_selector) a) (sym same_spec)) h₁
          (ap (λ sp. contains s.spec.supported_node_disruption_types sp.type_name) same_spec
            ∙ supported)
          small few held) [ inl had ↦ inl (sym same_holds ∙ had) | inr fits ↦ inr fits ]
