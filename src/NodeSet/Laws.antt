-- ===== src/NodeSet/Laws.antt =====
-- Node sets by their members: what the wrappers of the resolver keep, and when two sets meet.
use node_disruption_controll.Prelude.{
  suc, String, Bool, true, false, ◌||◌, List, [], ◌∷◌, ◌≡◌, refl, sym, ◌∙◌, arith, length, contains,
  meets, any, str_eq, str_eq_iff, str_eq_refl, ltb, ltb→lt, lt→ltb, Bool-cases, ◌↔◌, inl, inr,
}
use node_disruption_controll.NodeSet.{
  SetLibrary, IsLawful, insert_all, new_node_set_from_string_list, node_set_to_string_list,
  overlaps,
}
use node_disruption_controll.NodeSet.Sorting.{contains-sort_strings}

any-of_contains :
    (p : String → Bool) (a : String) (xs : List String)
    → contains xs a ≡ true
    → p a ≡ true
    → any p xs ≡ true
any-of_contains p a [] h e = cc
any-of_contains p a (x ∷ xs) h e = elim (Bool-cases (str_eq x a)) [
  | inl same ↦ rw ((str_eq_iff x a).0 same, e)
  | inr other ↦ ground (arith, any-of_contains p a xs (ground arith) e)
]

-- A test that some member passes is passed by a member that can be named.
contains-of_any :
    (p : String → Bool) (xs : List String)
    → any p xs ≡ true
    → (a : String) × (contains xs a ≡ true) × (p a ≡ true)
contains-of_any p [] h = cc
contains-of_any p (x ∷ xs) h = elim (Bool-cases (p x)) [
  | inl e ↦ (x, rw (str_eq_refl x), e)
  | inr e ↦ let (a, m, q) = contains-of_any p xs (ground arith) in (a, ground arith, q)
]

-- Two tests that pass alike are equal.
Bool-eq : (b c : Bool) → (b ≡ true → c ≡ true) → (c ≡ true → b ≡ true) → b ≡ c
Bool-eq true c f g = rw (f refl)
Bool-eq false true f g = g refl
Bool-eq false false f g = refl

-- Two lists meet if and only if they share a name.
meets_iff :
    (xs ys : List String)
    → (meets xs ys ≡ true) ↔ ((a : String) × (contains xs a ≡ true) × (contains ys a ≡ true))
meets_iff xs ys =
    (contains-of_any (contains ys) xs, λ (a, m, n). any-of_contains (contains ys) a xs m n)

-- Whether two lists meet depends on their members alone.
pub meets_congr :
    (xs xs' ys ys' : List String)
    → ((a : String) → contains xs a ≡ contains xs' a)
    → ((a : String) → contains ys a ≡ contains ys' a)
    → meets xs ys ≡ meets xs' ys'
meets_congr xs xs' ys ys' p q =
    Bool-eq (meets xs ys) (meets xs' ys')
      (λ h.
        let (a, m, n) = (meets_iff xs ys).0 h in
        (meets_iff xs' ys').1 (a, sym (p a) ∙ m, sym (q a) ∙ n))
      (λ h. let (a, m, n) = (meets_iff xs' ys').0 h in (meets_iff xs ys).1 (a, p a ∙ m, q a ∙ n))

contains-nonempty :
    (xs : List String) → ltb 0 (length xs) ≡ true → (a : String) × (contains xs a ≡ true)
contains-nonempty [] h = absurd (omega (arith, ltb→lt 0 0 h))
contains-nonempty (x ∷ xs) h = (x, rw (str_eq_refl x))

nonempty_of_contains :
    (xs : List String) (a : String) → contains xs a ≡ true → ltb 0 (length xs) ≡ true
nonempty_of_contains [] a h = cc
nonempty_of_contains (x ∷ xs) a h = lt→ltb 0 (suc (length xs)) (omega arith)

module _ (L : SetLibrary) (lawful : IsLawful L) where
  contains-insert_all :
      (s : L.Set) (xs : List String) (a : String)
      → contains (L.elements (insert_all L s xs)) a ≡ (contains xs a || contains (L.elements s) a)
  unfolding insert_all
  contains-insert_all s [] a = refl
  contains-insert_all s (x ∷ xs) a =
      contains-insert_all (L.insert s x) xs a ∙ rw (lawful.contains-insert s x a) (ground arith)

  -- The set made of a list has the names of the list.
  pub contains-new_node_set :
      (xs : List String) (a : String)
      → contains (L.elements (new_node_set_from_string_list L xs)) a ≡ contains xs a
  unfolding new_node_set_from_string_list
  contains-new_node_set xs a =
      contains-insert_all L.new xs a ∙ rw (lawful.contains-new a) (ground arith)

  -- The list made of a set has the names of the set.
  pub contains-to_string_list :
      (s : L.Set) (a : String)
      → contains (node_set_to_string_list L s) a ≡ contains (L.elements s) a
  unfolding node_set_to_string_list
  contains-to_string_list s a = contains-sort_strings a (L.elements s)

  overlaps-of_shared :
      (s t : L.Set) (a : String)
      → contains (L.elements s) a ≡ true
      → contains (L.elements t) a ≡ true
      → overlaps L s t ≡ true
  unfolding overlaps
  overlaps-of_shared s t a h k = rw lawful.len-elements (
      nonempty_of_contains (L.elements (L.intersection s t)) a
        (rw (lawful.contains-intersection s t a, h, k)))

  shared-of_overlaps :
      (s t : L.Set)
      → overlaps L s t ≡ true
      → (a : String) × (contains (L.elements s) a ≡ true) × (contains (L.elements t) a ≡ true)
  unfolding overlaps
  shared-of_overlaps s t h =
      let (a, m) =
        contains-nonempty (L.elements (L.intersection s t)) (rw lawful.len-elements at h) in
      (
        a,
        ground (arith, lawful.contains-intersection s t a),
        ground (arith, lawful.contains-intersection s t a),
      )

  -- Two sets overlap, as the code tests it, if and only if their lists of names meet.
  pub overlaps-eq-meets : (s t : L.Set) → overlaps L s t ≡ meets (L.elements s) (L.elements t)
  overlaps-eq-meets s t =
      Bool-eq (overlaps L s t) (meets (L.elements s) (L.elements t))
        (λ h. (meets_iff (L.elements s) (L.elements t)).1 (shared-of_overlaps s t h))
        λ h.
          let (a, m, n) = (meets_iff (L.elements s) (L.elements t)).0 h in
          overlaps-of_shared s t a m n

  -- Over a lawful set library, the sets made of two lists overlap, as the code tests it, if and
  -- only if the lists have a text in common.
  pub overlaps-new_node_set :
      (xs ys : List String)
      → overlaps L (new_node_set_from_string_list L xs) (new_node_set_from_string_list L ys)
        ≡ meets xs ys
  overlaps-new_node_set xs ys =
      overlaps-eq-meets (new_node_set_from_string_list L xs) (new_node_set_from_string_list L ys)
      ∙ meets_congr _ xs _ ys (contains-new_node_set xs) (contains-new_node_set ys)
