-- ===== src/Budget/Allowance.antt =====
-- How many disruptions a budget allows, and which it tolerates.
use node_disruption_controll.Prelude.{
  ℕ, ◌+◌, ◌≤◌, ◌<◌, ◌^◌, String, true, List, ◌≡◌, ◌↔◌, arith, length, ap, ◌∙◌, if◌then◌else◌,
}
use node_disruption_controll.Prelude.Int.{
  int_laws, ℤ, pos, pos_part, neg_part, ◌-ℤ◌, ◌≤ℤ◌, leb_ℤ, IsSmall, IsInt64, sub64,
  sub64-sub64-eq_of_IsSmall, sub64-eq_of_IsSmall, sub64_lem, wrap64_lem, ◌+ℤ◌,
}
use node_disruption_controll.Prelude.Float.{to_float64, of_float64, float_min, to_float64_lem}
use node_disruption_controll.Api.{ApplicationDisruptionBudget, NodeDisruptionBudget, Disruption}
use node_disruption_controll.NodeSet.{new_node_set_from_string_list}
use node_disruption_controll.Client.{Env}
use node_disruption_controll.Budget.Application
use node_disruption_controll.Budget.Pool

leb_ℤ-sub_sub :
    (a : ℤ) (count : ℕ)
    → (leb_ℤ (pos 0) ((a -ℤ pos count) -ℤ pos 1) ≡ true) ↔ (pos (count + 1) ≤ℤ a)
unfolding ◌-ℤ◌
leb_ℤ-sub_sub a count = (ground arith, ground arith)

pub computed-application-tolerates :
    (max : ℤ) (count : ℕ)
    → IsSmall max
    → count ≤ 2 ^ 51
    → (leb_ℤ (pos 0) (sub64 (sub64 max (pos count)) (pos 1)) ≡ true) ↔ (pos (count + 1) ≤ℤ max)
computed-application-tolerates max count m c =
    rw (sub64-sub64-eq_of_IsSmall max (pos count) (pos 1) m (ground arith) (ground arith))
      (leb_ℤ-sub_sub max count)

module _ (env : Env) where
  -- A budget of an application, as `Sync` leaves it with its count of disruptions, tolerates one
  -- more if and only if the count and one are at most its maximum. It is disruptions that are
  -- counted, however many nodes each of them and the one that is asked for have: the comment of
  -- `MaxDisruptions` speaks of nodes. Condition: the maximum is at most 2 ^ 51 in magnitude and the
  -- count is at most 2 ^ 51.
  pub application-tolerates :
      (adb : ApplicationDisruptionBudget) (nodes : List String) (count : ℕ)
      (found : List Disruption)
      → IsSmall adb.spec.max_disruptions
      → count ≤ 2 ^ 51
      → (Application.tolerate_disruption (Application.with_status env adb nodes (count, found))
          ≡ true)
        ↔ (pos (count + 1) ≤ℤ adb.spec.max_disruptions)
  unfolding Application.tolerate_disruption Application.with_status
  application-tolerates adb nodes count found m c =
      computed-application-tolerates adb.spec.max_disruptions count m c

-- The smaller of two integers.
abbrev min_ℤ : ℤ → ℤ → ℤ
min_ℤ a b = if leb_ℤ a b then a else b

sub_exact :
    (a b : ℤ) → IsSmall a → IsSmall b → (pos_part (a -ℤ b) < 2 ^ 53) × (neg_part (a -ℤ b) < 2 ^ 53)
unfolding ◌-ℤ◌
sub_exact a b h k = ground arith

sub_sub-exact :
    (a b c : ℤ)
    → IsSmall a
    → IsSmall b
    → IsSmall c
    → (pos_part ((a -ℤ b) -ℤ c) < 2 ^ 53) × (neg_part ((a -ℤ b) -ℤ c) < 2 ^ 53)
unfolding ◌-ℤ◌
sub_sub-exact a b c h k l = ground arith

float_min_lem :
    (a b : ℤ)
    → (pos_part a < 2 ^ 53) × (neg_part a < 2 ^ 53)
    → (pos_part b < 2 ^ 53) × (neg_part b < 2 ^ 53)
    → of_float64 (float_min (to_float64 a) (to_float64 b)) ≡ min_ℤ a b
unfolding of_float64 float_min
float_min_lem a b h k =
    ap (λ x. of_float64 (float_min x (to_float64 b))) (to_float64_lem a h.0 h.1)
    ∙ ap (λ y. of_float64 (float_min a y)) (to_float64_lem b k.0 k.1)
    ∙ wrap64_lem (min_ℤ a b) (ground arith)

-- The disruptions that a pool's budget allows are the smaller of the exact differences maximum
-- less current and watched less current less minimum, if none of the four numbers exceeds 2 ^ 51
-- in magnitude: the arithmetic then neither wraps nor is rounded on its way through `float64`.
compute_disruptions_allowed-eq-min :
    (max min watched current : ℤ)
    → IsSmall max
    → IsSmall min
    → IsSmall watched
    → IsSmall current
    → Pool.compute_disruptions_allowed max min watched current
      ≡ min_ℤ (max -ℤ current) ((watched -ℤ current) -ℤ min)
unfolding Pool.compute_disruptions_allowed
compute_disruptions_allowed-eq-min max min watched current a b c d =
    rw (sub64-eq_of_IsSmall max current a d, sub64-sub64-eq_of_IsSmall watched current min c d b)
      (float_min_lem (max -ℤ current) ((watched -ℤ current) -ℤ min) (sub_exact max current a d)
        (sub_sub-exact watched current min c d b))

sub-IsInt64 :
    (a : ℤ) (k : ℕ)
    → (pos_part a < 2 ^ 53) × (neg_part a < 2 ^ 53)
    → k ≤ 2 ^ 51
    → IsInt64 (a -ℤ pos k)
unfolding ◌-ℤ◌
sub-IsInt64 a k h e = ground arith

leb_ℤ-sub : (a : ℤ) (k : ℕ) → (leb_ℤ (pos 0) (a -ℤ pos k) ≡ true) ↔ (pos k ≤ℤ a)
leb_ℤ-sub a k = (grind int_laws, grind int_laws)

leb_ℤ-sub64 :
    (a : ℤ) (k : ℕ)
    → (pos_part a < 2 ^ 53) × (neg_part a < 2 ^ 53)
    → k ≤ 2 ^ 51
    → (leb_ℤ (pos 0) (sub64 a (pos k)) ≡ true) ↔ (pos k ≤ℤ a)
leb_ℤ-sub64 a k h e = rw (sub64_lem a (pos k) (sub-IsInt64 a k h e)) (leb_ℤ-sub a k)

≤ℤ-min : (a b c : ℤ) → (a ≤ℤ min_ℤ b c) ↔ ((a ≤ℤ b) × (a ≤ℤ c))
≤ℤ-min a b c = (ground arith, ground arith)

≤ℤ-sub : (a : ℤ) (count k : ℕ) → (pos k ≤ℤ (a -ℤ pos count)) ↔ (pos (count + k) ≤ℤ a)
≤ℤ-sub a count k = (grind int_laws, grind int_laws)

≤ℤ-sub_sub :
    (a : ℤ) (watched count k : ℕ)
    → (pos k ≤ℤ ((pos watched -ℤ pos count) -ℤ a)) ↔ ((a +ℤ pos (count + k)) ≤ℤ pos watched)
≤ℤ-sub_sub a watched count k = (grind int_laws, grind int_laws)

min_ℤ-bound :
    (a b : ℤ)
    → (pos_part a < 2 ^ 53) × (neg_part a < 2 ^ 53)
    → (pos_part b < 2 ^ 53) × (neg_part b < 2 ^ 53)
    → (pos_part (min_ℤ a b) < 2 ^ 53) × (neg_part (min_ℤ a b) < 2 ^ 53)
min_ℤ-bound a b h k = ground arith

computed-tolerates :
    (max min : ℤ) (watched count k : ℕ)
    → IsSmall max
    → IsSmall min
    → watched ≤ 2 ^ 51
    → count ≤ 2 ^ 51
    → k ≤ 2 ^ 51
    → (leb_ℤ
          (pos 0)
          (sub64 (Pool.compute_disruptions_allowed max min (pos watched) (pos count)) (pos k))
        ≡ true)
      ↔ ((pos (count + k) ≤ℤ max) × ((min +ℤ pos (count + k)) ≤ℤ pos watched))
computed-tolerates max min watched count k a b c d e =
    let small : (n : ℕ) → n ≤ 2 ^ 51 → IsSmall (pos n) = λ n h. (h, ground arith) in
    let for_max = max -ℤ pos count in
    let for_min = (pos watched -ℤ pos count) -ℤ min in
    let bound =
      min_ℤ-bound for_max for_min (sub_exact max (pos count) a (small count d))
        (sub_sub-exact (pos watched) (pos count) min (small watched c) (small count d) b) in
    let tolerated = leb_ℤ-sub64 (min_ℤ for_max for_min) k bound e in
    let both = ≤ℤ-min (pos k) for_max for_min in
    let by_max = ≤ℤ-sub max count k in
    let by_min = ≤ℤ-sub_sub min watched count k in
    rw
      (compute_disruptions_allowed-eq-min max min (pos watched) (pos count) a b (small watched c)
        (small count d))
      (
        λ h. let fits = both.0 (tolerated.0 h) in (by_max.0 fits.0, by_min.0 fits.1),
        λ h. tolerated.1 (both.1 (by_max.1 h.0, by_min.1 h.1)),
      )

module _ (env : Env) where
  -- A pool's budget, as `Sync` leaves it with its list of watched nodes and its count of
  -- disruptions, tolerates the disruption of some nodes if and only if the count and the number of
  -- watched ones among those nodes are together at most the maximum, and together with the minimum
  -- at most the number of watched nodes. Condition: none of these numbers exceeds 2 ^ 51 in
  -- magnitude.
  pub pool-tolerates :
      (ndb : NodeDisruptionBudget) (nodes : List String) (count : ℕ) (found : List Disruption)
      (disrupted : env.sets.Set)
      → let k =
          env.sets.len
            (env.sets.intersection (new_node_set_from_string_list env.sets nodes) disrupted) in
        IsSmall ndb.spec.max_disrupted_nodes
        → IsSmall ndb.spec.min_undisrupted_nodes
        → length nodes ≤ 2 ^ 51
        → count ≤ 2 ^ 51
        → k ≤ 2 ^ 51
        → (Pool.tolerate_disruption env (Pool.with_status env ndb nodes (count, found)) disrupted
            ≡ true)
          ↔ ((pos (count + k) ≤ℤ ndb.spec.max_disrupted_nodes)
              × ((ndb.spec.min_undisrupted_nodes +ℤ pos (count + k)) ≤ℤ pos (length nodes)))
  unfolding Pool.tolerate_disruption Pool.with_status
  pool-tolerates ndb nodes count found disrupted a b c d e =
      computed-tolerates ndb.spec.max_disrupted_nodes ndb.spec.min_undisrupted_nodes (length nodes)
        count
        (env.sets.len
          (env.sets.intersection (new_node_set_from_string_list env.sets nodes) disrupted))
        a b c d e
