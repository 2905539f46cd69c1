-- ===== src/DeepCopy/Heap.antt =====
-- Go's heap, as far as copies of API objects see it: arrays at addresses, which slices refer to.
use node_disruption_controll.Prelude.{ℕ, suc, ◌≤◌, ◌<◌, ◌≡◌, ◌≢◌, refl, arith, ◌==◌, if◌then◌else◌}

-- A slice: nil, or an array's address.
pub data Ref : Type 0 where
  nil : Ref
  at : ℕ → Ref

-- `Array` is what an address can hold.
module _ (Array : Type 0) where
  -- The addresses below `next` are in use.
  pub record Heap : Type 0 where
    pub next : ℕ
    pub array : ℕ → Array

  -- A computation that allocates.
  abbrev pub Copy : Type 0 → Type 0
  Copy A = Heap → A × Heap

  -- `make`
  unfoldable pub alloc : Array → Copy ℕ
  alloc x h =
      (h.next, record { next = suc h.next; array = λ p. if p == h.next then x else h.array p })

  -- An array gets its elements.
  unfoldable pub store : ℕ → Array → Copy (Unit {0})
  store q x h = (tt, record { next = h.next; array = λ p. if p == q then x else h.array p })

  -- The arrays of the two heaps are the same from an address on, up to another.
  abbrev pub Same : ℕ → ℕ → Heap → Heap → Type 0
  Same lo hi h h' = (p : ℕ) → lo ≤ p → p < hi → h'.array p ≡ h.array p

  pub alloc-Same : (x : Array) (h : Heap) → Same 0 h.next h (alloc x h).1
  unfolding alloc
  alloc-Same x h p lower upper = ground arith

  pub alloc-next : (x : Array) (h : Heap) → (alloc x h).1.next ≡ suc h.next
  unfolding alloc
  alloc-next x h = refl

  pub store-Same :
      (q : ℕ) (x : Array) (h : Heap) (p : ℕ) → p ≢ q → (store q x h).1.array p ≡ h.array p
  unfolding store
  store-Same q x h p other = ground arith

  pub store-here : (q : ℕ) (x : Array) (h : Heap) → (store q x h).1.array q ≡ x
  unfolding store
  store-here q x h = ground arith

  pub store-next : (q : ℕ) (x : Array) (h : Heap) → (store q x h).1.next ≡ h.next
  unfolding store
  store-next q x h = refl

module _ {Array A B : Type 0} where
  infixl 5 ◌>>=◌
  abbrev pub ◌>>=◌ : Copy Array A → (A → Copy Array B) → Copy Array B
  ◌>>=◌ m f h = f (m h).0 (m h).1

abbrev pub pure : {Array A : Type 0} → A → Copy Array A
pure a h = (a, h)
