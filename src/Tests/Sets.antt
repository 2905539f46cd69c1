-- ===== src/Tests/Sets.antt =====
-- Sets of texts as lists: a library that meets what is assumed of the package.
use node_disruption_controll.Prelude.{
  String, Bool, true, ◌&&◌, ◌||◌, List, [], ◌∷◌, ◌++◌, ◌≡◌, refl, arith, length, contains, keep_if,
  any-append, str_eq, str_eq_iff, if◌then◌else◌, Bool-cases, inl, inr,
}
use node_disruption_controll.NodeSet.{SetLibrary, IsLawful}

abbrev pub list_sets : SetLibrary
list_sets = record {
  Set = List String;
  new = [];
  insert = λ s x. if contains s x then s else x ∷ s;
  intersection = λ s t. keep_if (contains t) s;
  union = λ s t. s ++ t;
  len = length;
  elements = λ s. s;
}

contains-keep_if :
    (p : String → Bool) (xs : List String) (a : String)
    → contains (keep_if p xs) a ≡ (contains xs a && p a)
contains-keep_if p [] a = refl
contains-keep_if p (x ∷ xs) a = elim (Bool-cases (str_eq x a)) [
  | inl same ↦
      rw ((str_eq_iff x a).0 same) (ground (arith, contains-keep_if p xs a, str_eq_iff a a))
  | inr other ↦ ground (arith, contains-keep_if p xs a)
]

insert_old :
    (s : List String) (x a : String)
    → contains s x ≡ true
    → contains s a ≡ (str_eq x a || contains s a)
insert_old s x a h = elim (Bool-cases (str_eq x a)) [
  | inl same ↦ rw (← (str_eq_iff x a).0 same) (ground (arith, str_eq_iff x x))
  | inr other ↦ ground arith
]

pub list_sets-IsLawful : IsLawful list_sets
list_sets-IsLawful = record {
  contains-new = λ a. refl;
  contains-insert = λ s x a. ground (arith, insert_old s x a);
  contains-intersection = λ s t a. contains-keep_if (contains t) s a;
  contains-union = λ s t a. any-append (λ x. str_eq x a) s t;
  len-elements = λ s. refl;
}
