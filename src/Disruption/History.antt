-- ===== src/Disruption/History.antt =====
-- Grants over any history of a disruption: reconciliations and edits.
use node_disruption_controll.Prelude.{◌≡◌, ◌≢◌, ◌⊎◌, inl, inr, refl, arith, subst, ap, sym, ◌∙◌}
use node_disruption_controll.Api.{
  NodeDisruptionState, unknown, pending, granted, rejected, NodeDisruption,
}
use node_disruption_controll.Api.Slice.{of, items}
use node_disruption_controll.NodeSet.{node_set_to_string_list}
use node_disruption_controll.Client.{Env}
use node_disruption_controll.Client.Monad.{Result, ok, >>=-eq-ok}
use node_disruption_controll.Resolver.{get_node_from_node_selector}
use node_disruption_controll.Disruption.Settings.{Config}
use node_disruption_controll.Disruption.Transition.{
  transition_from, try_transition_to_granted, sync, reconcile_single,
}
use node_disruption_controll.Disruption.Granting.{IsGrounded, try_transition_to_granted-IsGrounded}
use node_disruption_controll.Disruption.States.{
  Run, here, edited, reconciled, granted-keeps, sync-keeps,
}

module _ (env : Env) (config : Config) where
  -- The disruption with these nodes in its status.
  abbrev with_nodes : NodeDisruption → env.sets.Set → NodeDisruption
  with_nodes nd nodes = record nd {
    status = record (nd.status) { disrupted_nodes = of (node_set_to_string_list env.sets nodes) };
  }

  sync-found :
      (nd : NodeDisruption) (w : env.World) {nd' : NodeDisruption} {w' : env.World}
      → sync env nd w ≡ (ok nd', w')
      → (nodes : env.sets.Set) × (get_node_from_node_selector env nd.spec.node_selector w
          ≡ (ok nodes, w'))
        × (nd' ≡ with_nodes nd nodes)
  unfolding sync
  sync-found nd w h =
      let (nodes, between, found, rest) =
        >>=-eq-ok (get_node_from_node_selector env nd.spec.node_selector) _ w h in
      (nodes, found ∙ ground arith, ground arith)

  -- The grant that statuses stem from, within a run: a reconciliation of the disruption as the run
  -- had left it found it pending, looked its nodes up, and granted it on those nodes, and the rest
  -- of the run followed.
  pub record WasGrounded (nd nd' : NodeDisruption) : Type 0 where
    pub attempted : NodeDisruption
    pub before : Run env config nd attempted
    pub was_pending : attempted.status.state ≡ pending
    pub nodes : env.sets.Set
    pub start : env.World
    pub looked_up : env.World
    pub nodes_found :
        get_node_from_node_selector env attempted.spec.node_selector start ≡ (ok nodes, looked_up)
    pub granted_as : NodeDisruption
    pub finish : env.World
    pub reconciled_to : reconcile_single env config attempted start ≡ (ok granted_as, finish)
    pub grant_given : granted_as.status.state ≡ granted
    pub since : Run env config granted_as nd'
    pub grounded :
        IsGrounded env config
          (with_nodes attempted nodes)
          (items nd'.status.disrupted_disruption_budgets)

  result_statuses :
      {a b : NodeDisruption} {w w' : env.World}
      → ◌≡◌ {A = Result NodeDisruption × env.World} (ok a, w) (ok b, w')
      → a ≡ b
  result_statuses h = ground arith

  transition_from-IsGrounded :
      (s : NodeDisruptionState) (nd : NodeDisruption) (w : env.World) {nd' : NodeDisruption}
      {w' : env.World}
      → transition_from env s config nd w ≡ (ok nd', w')
      → nd.status.state ≡ s
      → s ≢ granted
      → nd'.status.state ≡ granted
      → (s ≡ pending) × IsGrounded env config nd (items nd'.status.disrupted_disruption_budgets)
  unfolding transition_from
  transition_from-IsGrounded unknown nd w h e n g = absurd (ground (arith, result_statuses h))
  transition_from-IsGrounded pending nd w h e n g =
      let (decided, between, made, rest) =
        >>=-eq-ok (try_transition_to_granted env config nd) _ w h in
      let same = result_statuses rest in
      (
        refl,
        subst
            (λ (x : NodeDisruption).
              IsGrounded env config nd (items x.status.disrupted_disruption_budgets))
            same
            (try_transition_to_granted-IsGrounded env config nd w made
              (ap (λ (x : NodeDisruption). x.status.state) same ∙ g)),
      )
  transition_from-IsGrounded granted nd w h e n g = absurd (n refl)
  transition_from-IsGrounded rejected nd w h e n g = absurd (ground (arith, result_statuses h))

  reconcile-WasGrounded :
      {first : NodeDisruption} (nd : NodeDisruption) (w : env.World) {nd' : NodeDisruption}
      {w' : env.World}
      → Run env config first nd
      → reconcile_single env config nd w ≡ (ok nd', w')
      → nd.status.state ≢ granted
      → nd'.status.state ≡ granted
      → WasGrounded first nd'
  unfolding reconcile_single
  reconcile-WasGrounded nd w {nd' = nd'} {w' = w'} r h n g =
      let (synced, w₁, looked, h₁) = >>=-eq-ok (sync env nd) _ w h in
      let (nodes, found, same) = sync-found nd w looked in
      let keeps = (sync-keeps env config nd w looked).0 in
      let (was_pending, grounds) =
        transition_from-IsGrounded synced.status.state synced w₁ h₁ refl (λ e. n (sym keeps ∙ e))
          g in
      record {
        attempted = nd;
        before = r;
        was_pending = sym keeps ∙ was_pending;
        nodes = nodes;
        start = w;
        looked_up = w₁;
        nodes_found = found;
        granted_as = nd';
        finish = w';
        reconciled_to = h;
        grant_given = g;
        since = here;
        grounded =
            subst
              (λ (x : NodeDisruption).
                IsGrounded env config x (items nd'.status.disrupted_disruption_budgets))
              same grounds;
      }

  is_granted_or_not : (s : NodeDisruptionState) → (s ≡ granted) ⊎ (s ≢ granted)
  is_granted_or_not unknown = inr (λ e. cc)
  is_granted_or_not pending = inr (λ e. cc)
  is_granted_or_not granted = inl refl
  is_granted_or_not rejected = inr (λ e. cc)

  -- A grant stays behind the statuses as long as they are kept.
  kept_grant :
      {first a b : NodeDisruption} (grant : WasGrounded first a)
      → Run env config grant.granted_as b
      → a.status.disrupted_disruption_budgets ≡ b.status.disrupted_disruption_budgets
      → WasGrounded first b
  kept_grant grant since same = record {
    attempted = grant.attempted;
    before = grant.before;
    was_pending = grant.was_pending;
    nodes = grant.nodes;
    start = grant.start;
    looked_up = grant.looked_up;
    nodes_found = grant.nodes_found;
    granted_as = grant.granted_as;
    finish = grant.finish;
    reconciled_to = grant.reconciled_to;
    grant_given = grant.grant_given;
    since = since;
    grounded =
        subst (λ st. IsGrounded env config (with_nodes grant.attempted grant.nodes) (items st)) same
          grant.grounded;
  }

  -- A disruption that was not granted at first and is granted after some run of successful
  -- reconciliations, in any worlds, and of edits of its metadata and its spec, was granted by one of
  -- the reconciliations of that run: it was pending before it, the nodes of its selector were looked
  -- up, and the statuses that it carries are grounded for the disruption of those nodes.
  pub Run-WasGrounded :
      {nd nd' : NodeDisruption}
      → Run env config nd nd'
      → nd.status.state ≢ granted
      → nd'.status.state ≡ granted
      → WasGrounded nd nd'
  Run-WasGrounded here n g = absurd (n g)
  Run-WasGrounded (edited meta spec r) n g =
      let grant = Run-WasGrounded r n g in kept_grant grant (edited meta spec grant.since) refl
  Run-WasGrounded (reconciled {a = a} w w' r e) n g = elim (is_granted_or_not a.status.state) [
    | inl before ↦
        let grant = Run-WasGrounded r n before in
        kept_grant grant (reconciled w w' grant.since e)
          (sym (granted-keeps env config a w e before).1)
    | inr before ↦ reconcile-WasGrounded a w r e before g
  ]
