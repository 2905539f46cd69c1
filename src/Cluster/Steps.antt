-- ===== src/Cluster/Steps.antt =====
-- The cluster's disruptions under the controller and its users, as a ledger of one budget.
use node_disruption_controll.Prelude.{
  ℕ, ◌+◌, ◌≤◌, ◌^◌, Bool, true, false, ◌⊎◌, ◌&&◌, meets, inl, inr, List, [], ◌∷◌, ◌++◌, ◌≡◌, sym,
  ap, ◌∙◌, subst, arith, contains, Bool-cases, if◌then◌else◌,
}
use node_disruption_controll.Prelude.Int.{ℤ, pos, ◌≤ℤ◌, IsSmall}
use node_disruption_controll.Api.{NodeDisruption, NodeDisruptionStatus}
use node_disruption_controll.Client.{Env}
use node_disruption_controll.Client.Monad.{ok}
use node_disruption_controll.Budget.Disruptions.{is_granted}
use node_disruption_controll.Disruption.Settings.{Config}
use node_disruption_controll.Disruption.Transition.{reconcile_single}
use node_disruption_controll.Cluster.Reads.{Setting, holds, holders, Shows}
use node_disruption_controll.Cluster.Granted.{reconcile_single-fits}
use node_disruption_controll.Cluster.Ledger
use node_disruption_controll.Cluster.Ledger.{keep, take, release, Run-bounded}

-- One change of the cluster's disruptions. A reconciliation that succeeds replaces one that is of a type
-- that the budget supports, in an environment of its own that shows the cluster as it then is. A user
-- may create a disruption that is not granted, delete any, and edit one, but for its status and, once
-- it is granted, its node selector: the code lets that be edited and does not check the grant again.
pub data Step (s : Setting) (nds nds' : List NodeDisruption) : Type 1 where
  reconciles :
      (before after : List NodeDisruption) (nd nd' : NodeDisruption) (e : Env) (config : Config)
      (w w' : e.World)
      → nds ≡ before ++ (nd ∷ after)
      → nds' ≡ before ++ (nd' ∷ after)
      → Shows e s nds
      → contains s.spec.supported_node_disruption_types nd.spec.type_name ≡ true
      → reconcile_single e config nd w ≡ (ok nd', w')
      → Step s nds nds'
  creates :
      (before after : List NodeDisruption) (nd : NodeDisruption)
      → nds ≡ before ++ after
      → nds' ≡ before ++ (nd ∷ after)
      → is_granted nd.status.state ≡ false
      → Step s nds nds'
  deletes :
      (before after : List NodeDisruption) (nd : NodeDisruption)
      → nds ≡ before ++ (nd ∷ after)
      → nds' ≡ before ++ after
      → Step s nds nds'
  edits :
      (before after : List NodeDisruption) (nd nd' : NodeDisruption)
      → nds ≡ before ++ (nd ∷ after)
      → nds' ≡ before ++ (nd' ∷ after)
      → nd'.status ≡ nd.status
      → (nd'.spec.node_selector ≡ nd.spec.node_selector) ⊎ (is_granted nd.status.state ≡ false)
      → Step s nds nds'

pub data Run (s : Setting) (nds : List NodeDisruption) : List NodeDisruption → Type 1 where
  here : Run s nds nds
  then_step : {mid nds' : List NodeDisruption} → Run s nds mid → Step s mid nds' → Run s nds nds'

-- How many places a disruption takes.
abbrev places : Setting → NodeDisruption → ℕ
places s nd = if holds s nd then 1 else 0

holders-middle :
    (s : Setting) (before after : List NodeDisruption) (nd : NodeDisruption)
    → holders s (before ++ (nd ∷ after)) ≡ places s nd + holders s (before ++ after)
holders-middle s [] after nd = ground arith
holders-middle s (x ∷ before) after nd = ground (arith, holders-middle s before after nd)

few_holders : (n : ℕ) (max : ℤ) → pos n ≤ℤ max → IsSmall max → n ≤ 2 ^ 51
few_holders n max h small = ground arith

-- A disruption replaced by one that takes a place only where it had one, or where one more fits.
replaced :
    (max : ℤ) (had has : Bool) (others n m : ℕ)
    → n ≡ (if had then 1 else 0) + others
    → m ≡ (if has then 1 else 0) + others
    → (has ≡ true → (had ≡ true) ⊎ (pos (n + 1) ≤ℤ max))
    → Ledger.Step max n m
replaced max had has others n m e f h = elim (Bool-cases had) [
  | inl is_had ↦ elim (Bool-cases has) [
    | inl is_has ↦ subst (Ledger.Step max n) (ground arith) keep
    | inr is_not ↦ release (ground arith)
  ]
  | inr not_had ↦ elim (Bool-cases has) [
    | inl is_has ↦ elim (h is_has) [
      | inl is_had ↦ absurd (ground arith)
      | inr fits ↦ subst (Ledger.Step max n) (ground arith) (take fits)
    ]
    | inr is_not ↦ subst (Ledger.Step max n) (ground arith) keep
  ]
]

no_place : {n others : ℕ} → n ≡ others → n ≡ (if false then 1 else 0) + others
no_place h = omega arith

module _ (s : Setting) where
  middle_of :
      {nds : List NodeDisruption} (before after : List NodeDisruption) (nd : NodeDisruption)
      → nds ≡ before ++ (nd ∷ after)
      → holders s nds ≡ places s nd + holders s (before ++ after)
  middle_of before after nd e = ap (holders s) e ∙ holders-middle s before after nd

  not_granted-holds :
      (nd : NodeDisruption) → is_granted nd.status.state ≡ false → holds s nd ≡ false
  not_granted-holds nd h = ground arith

  same_place :
      (nd nd' : NodeDisruption)
      → nd'.status ≡ nd.status
      → nd'.spec.node_selector ≡ nd.spec.node_selector
      → holds s nd' ≡ holds s nd
  same_place nd nd' status selector i =
      is_granted (status i).state && meets s.selected (s.nodes_of (selector i))

  -- A disruption that takes a place after an edit took it before.
  edited-holds :
      (nd nd' : NodeDisruption)
      → nd'.status ≡ nd.status
      → (nd'.spec.node_selector ≡ nd.spec.node_selector) ⊎ (is_granted nd.status.state ≡ false)
      → holds s nd' ≡ true
      → holds s nd ≡ true
  edited-holds nd nd' status (inl selector) h = sym (same_place nd nd' status selector) ∙ h
  edited-holds nd nd' status (inr fresh) h =
      absurd
        (ground (arith, ap (λ (st : NodeDisruptionStatus). is_granted st.state) status ∙ fresh))

  Step-refines :
      {nds nds' : List NodeDisruption}
      → Step s nds nds'
      → IsSmall s.spec.max_disruptions
      → pos (holders s nds) ≤ℤ s.spec.max_disruptions
      → Ledger.Step s.spec.max_disruptions (holders s nds) (holders s nds')
  Step-refines {nds = nds} {nds' = nds'}
        (reconciles before after nd nd' e config w w' at at' shown supported done) small fits =
      replaced s.spec.max_disruptions (holds s nd) (holds s nd') (holders s (before ++ after))
        (holders s nds) (holders s nds') (middle_of before after nd at)
        (middle_of before after nd' at')
        (reconcile_single-fits e config s nds shown nd w done supported small
          (few_holders (holders s nds) s.spec.max_disruptions fits small))
  Step-refines {nds = nds} {nds' = nds'} (creates before after nd at at' fresh) small fits =
      replaced s.spec.max_disruptions false (holds s nd) (holders s (before ++ after))
        (holders s nds) (holders s nds') (no_place (ap (holders s) at))
        (middle_of before after nd at') (λ h. absurd (ground (arith, not_granted-holds nd fresh)))
  Step-refines {nds = nds} {nds' = nds'} (deletes before after nd at at') small fits =
      replaced s.spec.max_disruptions (holds s nd) false (holders s (before ++ after))
        (holders s nds) (holders s nds') (middle_of before after nd at)
        (no_place (ap (holders s) at')) (λ h. absurd (ground arith))
  Step-refines {nds = nds} {nds' = nds'} (edits before after nd nd' at at' same_status allowed)
        small fits =
      replaced s.spec.max_disruptions (holds s nd) (holds s nd') (holders s (before ++ after))
        (holders s nds) (holders s nds') (middle_of before after nd at)
        (middle_of before after nd' at') (λ h. inl (edited-holds nd nd' same_status allowed h))

  -- While the nodes that selectors pick, the nodes that the budget selects and the budget's spec
  -- stay the same, a run of the cluster is a run of the ledger of the budget's places: the number of
  -- granted disruptions of nodes that the budget selects changes by one at a time, and grows only
  -- where one more is at most the maximum. A step of the run is a successful reconciliation of a
  -- disruption of a type that the budget supports, whose reads show the cluster as it then is, the
  -- creation of a disruption that is not granted, a deletion, or an edit that keeps the status and,
  -- of a granted disruption, the node selector. Condition: at first the number is at most the
  -- maximum, which is at most 2 ^ 51 in magnitude.
  pub Run-refines :
      {nds nds' : List NodeDisruption}
      → Run s nds nds'
      → IsSmall s.spec.max_disruptions
      → pos (holders s nds) ≤ℤ s.spec.max_disruptions
      → Ledger.Run s.spec.max_disruptions (holders s nds) (holders s nds')
  Run-refines here small fits = Ledger.here
  Run-refines (then_step r step) small fits =
      let before = Run-refines r small fits in
      Ledger.then_step before (Step-refines step small (Run-bounded before fits))

  -- While the nodes that selectors pick, the nodes that the budget selects and the budget's spec
  -- stay the same, the granted disruptions of nodes that the budget selects are never more than its
  -- maximum, if they are not at first and the maximum is at most 2 ^ 51 in magnitude, after any
  -- number of steps of these kinds: a successful reconciliation of a disruption of a type that the
  -- budget supports, whose reads show the cluster as it then is, the creation of a disruption that is
  -- not granted, a deletion, and an edit that keeps the status and, of a granted disruption, the node
  -- selector.
  pub Run-holders :
      {nds nds' : List NodeDisruption}
      → Run s nds nds'
      → IsSmall s.spec.max_disruptions
      → pos (holders s nds) ≤ℤ s.spec.max_disruptions
      → pos (holders s nds') ≤ℤ s.spec.max_disruptions
  Run-holders r small fits = Run-bounded (Run-refines r small fits) fits
