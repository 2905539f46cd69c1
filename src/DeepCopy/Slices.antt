-- ===== src/DeepCopy/Slices.antt =====
-- Slices: a copy of one that is not nil is an array of its own, whose elements are copied.
use node_disruption_controll.Prelude.{
  ℕ, suc, ◌≤◌, ◌<◌, Option, none, some, List, [], ◌≡◌, refl, sym, ap, subst, ◌∙◌, arith,
}
use node_disruption_controll.DeepCopy.Heap.{
  Heap, Ref, nil, at, Copy, alloc, store, alloc-Same, alloc-next, store-Same, store-here,
  store-next, ◌>>=◌, pure, Same,
}
use node_disruption_controll.DeepCopy.Parts.{Deep, IsDeep}
use node_disruption_controll.DeepCopy.Lists.{copy_all, elements, elements-IsDeep}

module _ (Array : Type 0) {E : Type 0} (into : E → Copy Array E) (wrap : List E → Array)
    (unwrap : Array → List E) where
  -- `if in.X != nil { … *out = make([]T, len(*in)); … }`: what an array holds is read when the loop
  -- begins.
  unfoldable pub copy_slice : Ref → Copy Array Ref
  unfolding alloc store
  copy_slice nil = pure nil
  copy_slice (at p) = do
    q ← alloc Array (wrap [])
    xs ← λ h. copy_all Array into (unwrap (h.array p)) h
    done ← store Array q (wrap xs)
    pure (at q)

module _ (Array : Type 0) {E : Type 0} (d : Deep Array E) (wrap : List E → Array)
    (unwrap : Array → List E) where
  abbrev view_slice : Ref → Heap Array → Option (List d.View)
  view_slice nil h = none
  view_slice (at p) h = some ((elements Array d).view (unwrap (h.array p)) h)

  abbrev SliceWithin : Ref → Heap Array → ℕ → ℕ → Type 0
  SliceWithin nil h lo hi = Unit
  SliceWithin (at p) h lo hi =
      (lo ≤ p) × (p < hi) × (elements Array d).Within (unwrap (h.array p)) h lo hi

  abbrev pub slice : Deep Array Ref
  slice = record {
    copy = copy_slice Array d.copy wrap unwrap;
    View = Option (List d.View);
    view = view_slice;
    Within = SliceWithin;
  }

  -- The heap when the new array has been made.
  abbrev made : Heap Array → Heap Array
  made h = (alloc Array (wrap []) h).1

  module _ (f : IsDeep Array E d) (same : (xs : List E) → unwrap (wrap xs) ≡ xs) where
    deep : IsDeep Array (List E) (elements Array d)
    deep = elements-IsDeep Array d f

    -- What the array holds, read once the new one has been made.
    abbrev held : ℕ → Heap Array → List E
    held p h = unwrap ((made h).array p)

    held-kept : (p : ℕ) (h : Heap Array) → p < h.next → held p h ≡ unwrap (h.array p)
    held-kept p h upper = ap unwrap (alloc-Same Array (wrap []) h p (omega arith) upper)

    -- The heaps when the elements have been copied, and at the end.
    abbrev filled : ℕ → Heap Array → Heap Array
    filled p h = ((elements Array d).copy (held p h) (made h)).1

    abbrev copies : ℕ → Heap Array → List E
    copies p h = ((elements Array d).copy (held p h) (made h)).0

    abbrev ended : ℕ → Heap Array → Heap Array
    ended p h = (store Array h.next (wrap (copies p h)) (filled p h)).1

    filled-grows : (p : ℕ) (h : Heap Array) → suc h.next ≤ (filled p h).next
    filled-grows p h =
        subst (λ n. n ≤ (filled p h).next) (alloc-next Array (wrap []) h)
          (deep.grows (held p h) (made h))

    held-within :
        (p : ℕ) (h : Heap Array)
        → SliceWithin (at p) h 0 h.next
        → (elements Array d).Within (held p h) (made h) 0 (made h).next
    held-within p h (lower, upper, w) =
        let next = alloc-next Array (wrap []) h in
        deep.widens (held p h) (made h) 0 h.next 0 (made h).next
          (deep.stays (held p h) h (made h) 0 h.next
            (subst (λ xs. (elements Array d).Within xs h 0 h.next) (sym (held-kept p h upper)) w)
            (alloc-Same Array (wrap []) h))
          (omega arith) (omega arith)

    -- The copies are not touched by the last step.
    filled-Same :
        (p : ℕ) (h : Heap Array)
        → Same Array (made h).next (filled p h).next (filled p h) (ended p h)
    filled-Same p h q lower upper =
        let next = alloc-next Array (wrap []) h in
        store-Same Array h.next (wrap (copies p h)) (filled p h) q (λ e. omega (arith, e))

    copies-within :
        (p : ℕ) (h : Heap Array)
        → SliceWithin (at p) h 0 h.next
        → (elements Array d).Within (copies p h) (ended p h) (made h).next (filled p h).next
    copies-within p h w =
        deep.stays (copies p h) (filled p h) (ended p h) (made h).next (filled p h).next
          (deep.fresh (held p h) (made h) (held-within p h w)) (filled-Same p h)

    -- The new array holds the copies.
    new_array : (p : ℕ) (h : Heap Array) → unwrap ((ended p h).array h.next) ≡ copies p h
    new_array p h =
        ap unwrap (store-here Array h.next (wrap (copies p h)) (filled p h)) ∙ same (copies p h)

    slice_copied :
        (r : Ref) (h : Heap Array)
        → SliceWithin r h 0 h.next
        → view_slice
            (copy_slice Array d.copy wrap unwrap r h).0
            (copy_slice Array d.copy wrap unwrap r h).1
          ≡ view_slice r h
    unfolding copy_slice
    slice_copied nil h w = refl
    slice_copied (at p) h w = ap some (
        ap (λ xs. (elements Array d).view xs (ended p h)) (new_array p h)
        ∙ deep.reads (copies p h) (filled p h) (ended p h) (made h).next (filled p h).next
            (deep.fresh (held p h) (made h) (held-within p h w)) (filled-Same p h)
        ∙ deep.copied (held p h) (made h) (held-within p h w)
        ∙ ap (λ xs. (elements Array d).view xs (made h)) (held-kept p h w.1)
        ∙ deep.reads (unwrap (h.array p)) h (made h) 0 h.next w.2 (alloc-Same Array (wrap []) h))

    slice_fresh :
        (r : Ref) (h : Heap Array)
        → SliceWithin r h 0 h.next
        → SliceWithin
            (copy_slice Array d.copy wrap unwrap r h).0
            (copy_slice Array d.copy wrap unwrap r h).1
            h.next
            (copy_slice Array d.copy wrap unwrap r h).1.next
    unfolding copy_slice
    slice_fresh nil h w = tt
    slice_fresh (at p) h w =
        let next = alloc-next Array (wrap []) h in
        let more = filled-grows p h in
        let total = store-next Array h.next (wrap (copies p h)) (filled p h) in
        (
          omega arith,
          omega arith,
          subst (λ xs. (elements Array d).Within xs (ended p h) h.next (ended p h).next)
              (sym (new_array p h))
              (deep.widens (copies p h) (ended p h) (made h).next (filled p h).next h.next
                (ended p h).next (copies-within p h w) (omega arith) (omega arith)),
        )

    slice_grows :
        (r : Ref) (h : Heap Array) → h.next ≤ (copy_slice Array d.copy wrap unwrap r h).1.next
    unfolding copy_slice
    slice_grows nil h = omega arith
    slice_grows (at p) h =
        let more = filled-grows p h in
        let total = store-next Array h.next (wrap (copies p h)) (filled p h) in omega arith

    slice_keeps :
        (r : Ref) (h : Heap Array)
        → Same Array 0 h.next h (copy_slice Array d.copy wrap unwrap r h).1
    unfolding copy_slice
    slice_keeps nil h q lower upper = refl
    slice_keeps (at p) h q lower upper =
        let next = alloc-next Array (wrap []) h in
        store-Same Array h.next (wrap (copies p h)) (filled p h) q (λ e. omega (arith, e))
        ∙ deep.keeps (held p h) (made h) q lower (omega arith)
        ∙ alloc-Same Array (wrap []) h q lower upper

    slice_reads :
        (r : Ref) (h h' : Heap Array) (lo hi : ℕ)
        → SliceWithin r h lo hi
        → Same Array lo hi h h'
        → view_slice r h' ≡ view_slice r h
    slice_reads nil h h' lo hi w kept = refl
    slice_reads (at p) h h' lo hi (lower, upper, w) kept = ap some (
        ap (λ xs. (elements Array d).view xs h') (ap unwrap (kept p lower upper))
        ∙ deep.reads (unwrap (h.array p)) h h' lo hi w kept)

    slice_stays :
        (r : Ref) (h h' : Heap Array) (lo hi : ℕ)
        → SliceWithin r h lo hi
        → Same Array lo hi h h'
        → SliceWithin r h' lo hi
    slice_stays nil h h' lo hi w kept = tt
    slice_stays (at p) h h' lo hi (lower, upper, w) kept = (
      lower,
      upper,
      subst (λ xs. (elements Array d).Within xs h' lo hi) (sym (ap unwrap (kept p lower upper)))
          (deep.stays (unwrap (h.array p)) h h' lo hi w kept),
    )

    slice_widens :
        (r : Ref) (h : Heap Array) (lo hi lo' hi' : ℕ)
        → SliceWithin r h lo hi
        → lo' ≤ lo
        → hi ≤ hi'
        → SliceWithin r h lo' hi'
    slice_widens nil h lo hi lo' hi' w down up = tt
    slice_widens (at p) h lo hi lo' hi' (lower, upper, w) down up =
        (omega arith, omega arith, deep.widens (unwrap (h.array p)) h lo hi lo' hi' w down up)

    pub slice-IsDeep : IsDeep Array Ref slice
    slice-IsDeep = record {
      copied = slice_copied;
      fresh = slice_fresh;
      grows = slice_grows;
      keeps = slice_keeps;
      reads = slice_reads;
      stays = slice_stays;
      widens = slice_widens;
    }
