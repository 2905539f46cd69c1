-- ===== src/Disruption/Capacity.antt =====
-- What a grant leaves of the room of the budgets, in numbers.
use node_disruption_controll.Prelude.{
  ℕ, ◌+◌, ◌≤◌, ◌^◌, Bool, true, not, List, [], ◌∷◌, ◌++◌, ◌≡◌, arith, all, All, none, map, subst,
  ap, ◌∙◌, sym,
}
use node_disruption_controll.Prelude.Int.{pos, ◌≤ℤ◌, IsSmall, sub64, leb_ℤ}
use node_disruption_controll.Api.{
  NodeDisruption, ApplicationDisruptionBudget, DisruptedBudgetStatus,
}
use node_disruption_controll.Api.Slice.{items}
use node_disruption_controll.NodeSet.{new_node_set_from_string_list}
use node_disruption_controll.Client.{Env}
use node_disruption_controll.Client.Monad.{Result, ok, >>=-eq-ok}
use node_disruption_controll.Budget
use node_disruption_controll.Budget.{Budget, application, pool}
use node_disruption_controll.Budget.Application
use node_disruption_controll.Budget.Pool
use node_disruption_controll.Budget.Allowance.{computed-application-tolerates}
use node_disruption_controll.Disruption.Settings.{Config}
use node_disruption_controll.Disruption.Selection.{concerns, refuses, tolerates-of_refuses}
use node_disruption_controll.Disruption.Granting.{IsGrounded}

-- The budget's allowance is what its maximum and its count leave.
abbrev IsSynced : Budget → Type 0
IsSynced (application adb) =
    adb.status.disruptions_allowed ≡ sub64 adb.spec.max_disruptions adb.status.current_disruptions
IsSynced (pool ndb) = Unit

All-middle :
    {A : Type 0} (P : A → Type 0) (before after : List A) (x : A)
    → All P (before ++ (x ∷ after))
    → P x
All-middle P [] after x h = h.0
All-middle P (y ∷ before) after x h = All-middle P before after x h.1

all-middle :
    {A : Type 0} (p : A → Bool) (before after : List A) (x : A)
    → all p (before ++ (x ∷ after)) ≡ true
    → p x ≡ true
all-middle p [] after x h = ground arith
all-middle p (y ∷ before) after x h = all-middle p before after x (ground arith)

module _ (env : Env) where
  application_sync-IsSynced :
      (adb : ApplicationDisruptionBudget) (w : env.World) {adb' : ApplicationDisruptionBudget}
      {w' : env.World}
      → Application.sync env adb w ≡ (ok adb', w')
      → IsSynced (application adb')
  unfolding Application.sync Application.with_status
  application_sync-IsSynced adb w h =
      let (nodes, w₁, selected, h₁) = >>=-eq-ok (Application.get_selected_nodes env adb) _ w h in
      let (resolved, w₂, counted, h₂) =
        >>=-eq-ok (Application.resolve_disruption env adb) _ w₁ h₁ in
      ground arith

  result_budget :
      {a b : Budget} {w w' : env.World}
      → ◌≡◌ {A = Result Budget × env.World} (ok a, w) (ok b, w')
      → a ≡ b
  result_budget h = ground arith

  sync-IsSynced :
      (b : Budget) (w : env.World) {b' : Budget} {w' : env.World}
      → Budget.sync env b w ≡ (ok b', w')
      → IsSynced b'
  unfolding Budget.sync
  sync-IsSynced (application adb) w h =
      let (adb', w₁, synced, h₁) = >>=-eq-ok (Application.sync env adb) _ w h in
      subst IsSynced (result_budget h₁) (application_sync-IsSynced adb w synced)
  sync-IsSynced (pool ndb) w h =
      let (ndb', w₁, synced, h₁) = >>=-eq-ok (Pool.sync env ndb) _ w h in
      subst IsSynced (result_budget h₁) tt

  result_budgets :
      {a b : List Budget} {w w' : env.World}
      → ◌≡◌ {A = Result (List Budget) × env.World} (ok a, w) (ok b, w')
      → a ≡ b
  result_budgets h = ground arith

  sync_all-IsSynced :
      (bs : List Budget) (w : env.World) {bs' : List Budget} {w' : env.World}
      → Budget.sync_all env bs w ≡ (ok bs', w')
      → All IsSynced bs'
  unfolding Budget.sync_all
  sync_all-IsSynced [] w h = subst (All IsSynced) (result_budgets h) tt
  sync_all-IsSynced (b ∷ bs) w h =
      let (b', w₁, first, h₁) = >>=-eq-ok (Budget.sync env b) _ w h in
      let (bs', w₂, others, h₂) = >>=-eq-ok (Budget.sync_all env bs) _ w₁ h₁ in
      subst (All IsSynced) (result_budgets h₂)
        (sync-IsSynced b w first, sync_all-IsSynced bs w₁ others)

  get_budgets-IsSynced :
      (w : env.World) {budgets : List Budget} {w' : env.World}
      → Budget.get_all_budgets_in_sync env w ≡ (ok budgets, w')
      → All IsSynced budgets
  unfolding Budget.get_all_budgets_in_sync
  get_budgets-IsSynced w h =
      let (adbs, w₁, listed, h₁) = >>=-eq-ok (env.list_adbs none) _ w h in
      let (ndbs, w₂, listed', h₂) = >>=-eq-ok (env.list_ndbs none) _ w₁ h₁ in
      sync_all-IsSynced (map application adbs ++ map pool ndbs) w₂ h₂

  tolerated-fits :
      (adb : ApplicationDisruptionBudget) (disrupted : env.sets.Set) (count : ℕ)
      → IsSynced (application adb)
      → adb.status.current_disruptions ≡ pos count
      → IsSmall adb.spec.max_disruptions
      → count ≤ 2 ^ 51
      → Budget.tolerate_disruption env (application adb) disrupted ≡ true
      → pos (count + 1) ≤ℤ adb.spec.max_disruptions
  unfolding Budget.tolerate_disruption Application.tolerate_disruption
  tolerated-fits adb disrupted count synced current small few h =
      (computed-application-tolerates adb.spec.max_disruptions count small few).0 (
        ap (λ a. leb_ℤ (pos 0) (sub64 a (pos 1)))
          (sym (synced ∙ ap (sub64 adb.spec.max_disruptions) current))
        ∙ h)

  -- Behind a grant, every application's budget read that is concerned has room for one more: its count
  -- of disruptions and one are at most its maximum. Condition: the maximum is at most 2 ^ 51 in
  -- magnitude and the count is at most 2 ^ 51.
  pub IsGrounded-fits :
      (config : Config) (nd : NodeDisruption) (statuses : List DisruptedBudgetStatus)
      (grounds : IsGrounded env config nd statuses) (before after : List Budget)
      (adb : ApplicationDisruptionBudget) (count : ℕ)
      → grounds.budgets ≡ before ++ (application adb ∷ after)
      → concerns env nd
          (new_node_set_from_string_list env.sets (items nd.status.disrupted_nodes))
          (application adb)
        ≡ true
      → adb.status.current_disruptions ≡ pos count
      → IsSmall adb.spec.max_disruptions
      → count ≤ 2 ^ 51
      → pos (count + 1) ≤ℤ adb.spec.max_disruptions
  IsGrounded-fits config nd statuses grounds before after adb count listed concerned current small
        few =
      let disrupted = new_node_set_from_string_list env.sets (items nd.status.disrupted_nodes) in
      let synced = All-middle IsSynced before after (application adb) (
        subst (All IsSynced) listed
          (get_budgets-IsSynced grounds.before_read grounds.budgets_read)) in
      let kept =
        all-middle (λ b. not (refuses env nd disrupted b)) before after (application adb)
          (ap (all (λ b. not (refuses env nd disrupted b))) (sym listed) ∙ grounds.none_refuses) in
      tolerated-fits adb disrupted count synced current small few
        (tolerates-of_refuses env nd disrupted (application adb) kept concerned)
