-- ===== src/Budget/Synced.antt =====
-- Which budgets `GetAllBudgetsInSync` reads, and what `Sync` keeps of a budget.
use node_disruption_controll.Prelude.{String, none, List, [], ◌∷◌, ◌++◌, ◌≡◌, refl, arith, map, ap}
use node_disruption_controll.Api.{NamespacedName, ApplicationDisruptionBudget, NodeDisruptionBudget}
use node_disruption_controll.Client.{Env}
use node_disruption_controll.Client.Monad.{ok, >>=-eq-ok}
use node_disruption_controll.Budget.Application
use node_disruption_controll.Budget.Pool
use node_disruption_controll.Budget.{
  Budget, application, pool, get_namespaced_name, get_supported_disruption_types, sync, sync_all,
  get_all_budgets_in_sync,
}

-- What `Sync` must not change of a budget.
abbrev pub identity : Budget → NamespacedName × List String
identity b = (get_namespaced_name b, get_supported_disruption_types b)

map-append : {A B : Type 0} (f : A → B) (xs ys : List A) → map f (xs ++ ys) ≡ map f xs ++ map f ys
map-append f [] ys = refl
map-append f (x ∷ xs) ys = ap (λ l. f x ∷ l) (map-append f xs ys)

map-map :
    {A B C : Type 0} (f : B → C) (g : A → B) (xs : List A)
    → map f (map g xs) ≡ map (λ x. f (g x)) xs
map-map f g [] = refl
map-map f g (x ∷ xs) = ap (λ l. f (g x) ∷ l) (map-map f g xs)

module _ (env : Env) where
  pub application_sync-keeps :
      (adb : ApplicationDisruptionBudget) (w : env.World) {adb' : ApplicationDisruptionBudget}
      {w' : env.World}
      → Application.sync env adb w ≡ (ok adb', w')
      → (adb'.meta ≡ adb.meta) × (adb'.spec ≡ adb.spec)
  unfolding Application.sync Application.with_status
  application_sync-keeps adb w h =
      let (nodes, w₁, selected, h₁) = >>=-eq-ok (Application.get_selected_nodes env adb) _ w h in
      let (resolved, w₂, counted, h₂) =
        >>=-eq-ok (Application.resolve_disruption env adb) _ w₁ h₁ in
      (ground arith, ground arith)

  pool_sync-keeps :
      (ndb : NodeDisruptionBudget) (w : env.World) {ndb' : NodeDisruptionBudget} {w' : env.World}
      → Pool.sync env ndb w ≡ (ok ndb', w')
      → (ndb'.meta ≡ ndb.meta) × (ndb'.spec ≡ ndb.spec)
  unfolding Pool.sync Pool.with_status
  pool_sync-keeps ndb w h =
      let (nodes, w₁, selected, h₁) = >>=-eq-ok (Pool.get_selected_nodes env ndb) _ w h in
      let (resolved, w₂, counted, h₂) = >>=-eq-ok (Pool.resolve_disruption env ndb) _ w₁ h₁ in
      (ground arith, ground arith)

  sync-identity :
      (b : Budget) (w : env.World) {b' : Budget} {w' : env.World}
      → sync env b w ≡ (ok b', w')
      → identity b' ≡ identity b
  unfolding sync get_namespaced_name get_supported_disruption_types
  sync-identity (application adb) w h =
      let (adb', w₁, synced, h₁) = >>=-eq-ok (Application.sync env adb) _ w h in
      ground (arith, application_sync-keeps adb w synced)
  sync-identity (pool ndb) w h =
      let (ndb', w₁, synced, h₁) = >>=-eq-ok (Pool.sync env ndb) _ w h in
      ground (arith, pool_sync-keeps ndb w synced)

  sync_all-identity :
      (bs : List Budget) (w : env.World) {bs' : List Budget} {w' : env.World}
      → sync_all env bs w ≡ (ok bs', w')
      → map identity bs' ≡ map identity bs
  unfolding sync_all
  sync_all-identity [] w h = ground arith
  sync_all-identity (b ∷ bs) w h =
      let (b', w₁, first, h₁) = >>=-eq-ok (sync env b) _ w h in
      let (bs', w₂, others, h₂) = >>=-eq-ok (sync_all env bs) _ w₁ h₁ in
      ground (arith, sync-identity b w first, sync_all-identity bs w₁ others)

  -- If the budgets can be read, they are those of the two lists of the API, the applications' in
  -- front, in order, each with its name and its disruption types.
  pub get_all_budgets-identity :
      (w : env.World) {budgets : List Budget} {w' : env.World}
      → get_all_budgets_in_sync env w ≡ (ok budgets, w')
      → (adbs : List ApplicationDisruptionBudget) × (ndbs : List NodeDisruptionBudget)
        × (w₁ : env.World) × (w₂ : env.World) × (env.list_adbs none w ≡ (ok adbs, w₁))
        × (env.list_ndbs none w₁ ≡ (ok ndbs, w₂))
        × (map identity budgets ≡ map identity (map application adbs ++ map pool ndbs))
  unfolding get_all_budgets_in_sync
  get_all_budgets-identity w h =
      let (adbs, w₁, listed, h₁) = >>=-eq-ok (env.list_adbs none) _ w h in
      let (ndbs, w₂, listed', h₂) = >>=-eq-ok (env.list_ndbs none) _ w₁ h₁ in
      (
        adbs,
        ndbs,
        w₁,
        w₂,
        listed,
        listed',
        sync_all-identity (map application adbs ++ map pool ndbs) w₂ h₂,
      )
