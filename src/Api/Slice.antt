-- ===== src/Api/Slice.antt =====
-- Go's slices, where nil and the empty slice are two values that `reflect.DeepEqual` tells apart.
use node_disruption_controll.Prelude.{List, [], ◌∷◌, ◌++◌}

pub data Slice {ℓ} (A : Type ℓ) : Type ℓ where
  nil : Slice A
  of : List A → Slice A

module _ {ℓ} {A : Type ℓ} where
  abbrev pub items : Slice A → List A
  items nil = []
  items (of xs) = xs

  -- `append(s, x)`
  abbrev pub append_one : Slice A → A → Slice A
  append_one s x = of (items s ++ (x ∷ []))
