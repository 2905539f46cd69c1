-- ===== src/NodeSet.antt =====
-- The sets of node names of pkg/resolver/resolver.go. The set itself is that of a package which the
-- repository only imports, so it is a parameter; `IsLawful` says what is relied on.
pub mod Sorting
pub mod Laws
use node_disruption_controll.Prelude.{
  ℕ, String, Bool, true, false, ◌&&◌, ◌||◌, List, [], ◌∷◌, ◌≡◌, length, contains, str_eq, ltb,
}
use Sorting.{sort_strings}

-- `elements` is the order in which `Do` visits the members.
pub record SetLibrary : Type 1 where
  pub Set : Type 0
  pub new : Set
  pub insert : Set → String → Set
  pub intersection : Set → Set → Set
  pub union : Set → Set → Set
  pub len : Set → ℕ
  pub elements : Set → List String

-- The documented behaviour of the package, by membership; `Do` visits each member, and `Len`
-- counts what it visits.
pub record IsLawful (L : SetLibrary) : Type 0 where
  pub contains-new : (a : String) → contains (L.elements L.new) a ≡ false
  pub contains-insert :
      (s : L.Set) (x a : String)
      → contains (L.elements (L.insert s x)) a ≡ (str_eq x a || contains (L.elements s) a)
  pub contains-intersection :
      (s t : L.Set) (a : String)
      → contains (L.elements (L.intersection s t)) a
        ≡ (contains (L.elements s) a && contains (L.elements t) a)
  pub contains-union :
      (s t : L.Set) (a : String)
      → contains (L.elements (L.union s t)) a
        ≡ (contains (L.elements s) a || contains (L.elements t) a)
  pub len-elements : (s : L.Set) → L.len s ≡ length (L.elements s)

module _ (L : SetLibrary) where
  -- The inserts of a loop over texts.
  pub insert_all : L.Set → List String → L.Set
  insert_all s [] = s
  insert_all s (x ∷ xs) = insert_all (L.insert s x) xs

  -- `NewNodeSetFromStringList`
  unfoldable pub new_node_set_from_string_list : List String → L.Set
  unfolding insert_all
  new_node_set_from_string_list nodes = insert_all L.new nodes

  -- `NodeSetToStringList`
  unfoldable pub node_set_to_string_list : L.Set → List String
  unfolding sort_strings
  node_set_to_string_list s = sort_strings (L.elements s)

  -- `a.Intersection(b).Len() > 0`
  unfoldable pub overlaps : L.Set → L.Set → Bool
  overlaps s t = ltb 0 (L.len (L.intersection s t))
