-- ===== src/Cluster/Found.antt =====
-- The budget of a setting among the budgets that `GetAllBudgetsInSync` has read and synchronised.
use node_disruption_controll.Prelude.{
  String, none, List, [], ◌∷◌, ◌++◌, map, ◌≡◌, refl, ap, ◌∙◌, subst, arith, contains,
}
use node_disruption_controll.Prelude.Int.{pos}
use node_disruption_controll.Api.{NodeDisruption, ApplicationDisruptionBudget}
use node_disruption_controll.Api.Slice.{items}
use node_disruption_controll.NodeSet.Laws.{contains-to_string_list}
use node_disruption_controll.Client.{Env}
use node_disruption_controll.Client.Monad.{Result, ok, >>=-eq-ok}
use node_disruption_controll.Budget
use node_disruption_controll.Budget.{Budget, application, pool}
use node_disruption_controll.Budget.Application
use node_disruption_controll.Budget.Synced.{application_sync-keeps}
use node_disruption_controll.Cluster.Reads.{Setting, holders, IsBudget, Shows}
use node_disruption_controll.Cluster.Counted.{visit_disruptions-holders}

append_split :
    {A B : Type 0} (f : A → B) (before after : List A) (x : A) (ys : List B)
    → map f (before ++ (x ∷ after)) ++ ys ≡ map f before ++ (f x ∷ (map f after ++ ys))
append_split f [] after x ys = refl
append_split f (y ∷ before) after x ys = ap (λ l. f y ∷ l) (append_split f before after x ys)

module _ (e : Env) (s : Setting) (nds : List NodeDisruption) (shown : Shows e s nds) where
  -- The budget as it comes out of `Sync`: its count is that of the holders.
  pub record IsCounted (adb : ApplicationDisruptionBudget) : Type 0 where
    pub is_budget : IsBudget s adb
    pub counted : adb.status.current_disruptions ≡ pos (holders s nds)
    pub watched : (a : String) → contains (items adb.status.watched_nodes) a ≡ contains s.selected a

  -- One of the budgets of a list is the setting's, as counted.
  pub record IsListed (bs : List Budget) : Type 0 where
    pub before : List Budget
    pub adb : ApplicationDisruptionBudget
    pub after : List Budget
    pub listed : bs ≡ before ++ (application adb ∷ after)
    pub is_counted : IsCounted adb

  resolve_disruption-holders :
      (adb : ApplicationDisruptionBudget) (w : e.World) {acc : _} {w' : e.World}
      → IsBudget s adb
      → Application.resolve_disruption e adb w ≡ (ok acc, w')
      → acc.0 ≡ holders s nds
  unfolding Application.resolve_disruption
  resolve_disruption-holders adb w {acc = acc} is_budget h =
      let (nodes, w₁, selected, h₁) = >>=-eq-ok (Application.get_selected_nodes e adb) _ w h in
      let (found, w₂, read, h₂) = >>=-eq-ok e.list_node_disruptions _ w₁ h₁ in
      let total =
        visit_disruptions-holders e s nds shown nodes found (0, []) w₂
          (shown.selected_shown adb w nodes w₁ is_budget selected) h₂ in
      let same = ap (holders s) (shown.disruptions_shown w₁ found w₂ read) in omega arith

  result_adb :
      {a b : ApplicationDisruptionBudget} {w w' : e.World}
      → ◌≡◌ {A = Result ApplicationDisruptionBudget × e.World} (ok a, w) (ok b, w')
      → b ≡ a
  result_adb h = ground arith

  application_sync-IsCounted :
      (adb : ApplicationDisruptionBudget) (w : e.World) {adb' : ApplicationDisruptionBudget}
      {w' : e.World}
      → IsBudget s adb
      → Application.sync e adb w ≡ (ok adb', w')
      → IsCounted adb'
  unfolding Application.sync Application.with_status
  application_sync-IsCounted adb w {adb' = adb'} is_budget h =
      let (nodes, w₁, selected, h₁) = >>=-eq-ok (Application.get_selected_nodes e adb) _ w h in
      let (resolved, w₂, counted, h₂) = >>=-eq-ok (Application.resolve_disruption e adb) _ w₁ h₁ in
      let (same_meta, same_spec) = application_sync-keeps e adb w h in
      record {
        is_budget = (same_meta ∙ is_budget.0, same_spec ∙ is_budget.1);
        counted =
            ap (λ b. b.status.current_disruptions) (result_adb h₂)
            ∙ ap pos (resolve_disruption-holders adb w₁ is_budget counted);
        watched = λ a.
            ap (λ b. contains (items b.status.watched_nodes) a) (result_adb h₂)
            ∙ contains-to_string_list e.sets shown.lawful nodes a
            ∙ shown.selected_shown adb w nodes w₁ is_budget selected a;
      }

  result_budgets :
      {a b : List Budget} {w w' : e.World}
      → ◌≡◌ {A = Result (List Budget) × e.World} (ok a, w) (ok b, w')
      → b ≡ a
  result_budgets h = ground arith

  result_budget :
      {a b : Budget} {w w' : e.World}
      → ◌≡◌ {A = Result Budget × e.World} (ok a, w) (ok b, w')
      → b ≡ a
  result_budget h = ground arith

  sync_all-IsListed :
      (before after : List Budget) (adb : ApplicationDisruptionBudget) (w : e.World)
      {bs : List Budget} {w' : e.World}
      → IsBudget s adb
      → Budget.sync_all e (before ++ (application adb ∷ after)) w ≡ (ok bs, w')
      → IsListed bs
  unfolding Budget.sync_all Budget.sync
  sync_all-IsListed [] after adb w is_budget h =
      let (b, w₁, first, h₁) = >>=-eq-ok (Budget.sync e (application adb)) _ w h in
      let (bs, w₂, others, h₂) = >>=-eq-ok (Budget.sync_all e after) _ w₁ h₁ in
      let (adb', w₃, synced, h₃) = >>=-eq-ok (Application.sync e adb) _ w first in
      record {
        before = [];
        adb = adb';
        after = bs;
        listed = result_budgets h₂ ∙ ap (λ x. x ∷ bs) (result_budget h₃);
        is_counted = application_sync-IsCounted adb w is_budget synced;
      }
  sync_all-IsListed (b ∷ before) after adb w is_budget h =
      let (b', w₁, first, h₁) = >>=-eq-ok (Budget.sync e b) _ w h in
      let (bs, w₂, others, h₂) =
        >>=-eq-ok (Budget.sync_all e (before ++ (application adb ∷ after))) _ w₁ h₁ in
      let found = sync_all-IsListed before after adb w₁ is_budget others in
      record {
        before = b' ∷ found.before;
        adb = found.adb;
        after = found.after;
        listed = result_budgets h₂ ∙ ap (λ l. b' ∷ l) found.listed;
        is_counted = found.is_counted;
      }

  -- Where the budgets are read, the setting's is among them, with the count of the holders.
  pub get_all_budgets-IsListed :
      (w : e.World) {bs : List Budget} {w' : e.World}
      → Budget.get_all_budgets_in_sync e w ≡ (ok bs, w')
      → IsListed bs
  unfolding Budget.get_all_budgets_in_sync
  get_all_budgets-IsListed w {bs = bs} {w' = w'} h =
      let (adbs, w₁, listed, h₁) = >>=-eq-ok (e.list_adbs none) _ w h in
      let (ndbs, w₂, listed', h₂) = >>=-eq-ok (e.list_ndbs none) _ w₁ h₁ in
      let (before, adb, after, split, is_budget) = shown.budget_shown w adbs w₁ listed in
      let parts =
        ap (λ l. map application l ++ map pool ndbs) split
        ∙ append_split application before after adb (map pool ndbs) in
      sync_all-IsListed (map application before) (map application after ++ map pool ndbs) adb w₂
        is_budget (subst (λ l. Budget.sync_all e l w₂ ≡ (ok bs, w')) parts h₂)
