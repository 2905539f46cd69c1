-- ===== src/NodeSet/Sorting.antt =====
-- `sort.Strings`: the ascending arrangement of a list of texts, in the order of their bytes.
use Prim.Native.Nat.{Ordering}
use Prim.Native.String.{compare}
use node_disruption_controll.Prelude.{
  String, Bool, true, false, ◌||◌, List, [], ◌∷◌, ◌≡◌, refl, arith, contains, str_eq, if◌then◌else◌,
}

-- `s <= t`
abbrev str_le : String → String → Bool
str_le s t = elim (compare s t) [ Ordering.gt ↦ false | _ ↦ true ]

insert_sorted : String → List String → List String
insert_sorted x [] = x ∷ []
insert_sorted x (y ∷ ys) = if str_le x y then x ∷ y ∷ ys else y ∷ insert_sorted x ys

unfoldable pub sort_strings : List String → List String
unfolding insert_sorted
sort_strings [] = []
sort_strings (x ∷ xs) = insert_sorted x (sort_strings xs)

contains-insert_sorted :
    (x a : String) (ys : List String)
    → contains (insert_sorted x ys) a ≡ (str_eq x a || contains ys a)
unfolding insert_sorted
contains-insert_sorted x a [] = refl
contains-insert_sorted x a (y ∷ ys) = ground (arith, contains-insert_sorted x a ys)

-- Sorting keeps the members.
pub contains-sort_strings :
    (a : String) (xs : List String) → contains (sort_strings xs) a ≡ contains xs a
unfolding sort_strings
contains-sort_strings a [] = refl
contains-sort_strings a (x ∷ xs) =
    ground (arith, contains-insert_sorted x a (sort_strings xs), contains-sort_strings a xs)
