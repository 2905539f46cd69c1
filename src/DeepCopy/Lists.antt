-- ===== src/DeepCopy/Lists.antt =====
-- The loop that copies the elements of an array one after the other, which is deep if the copy of an
-- element is.
use node_disruption_controll.Prelude.{ℕ, ◌≤◌, List, [], ◌∷◌, map, All, ◌≡◌, refl, ◌∙◌, arith}
use node_disruption_controll.DeepCopy.Heap.{Heap, Copy, Same}
use node_disruption_controll.DeepCopy.Parts.{Deep, IsDeep}

module _ (Array : Type 0) {E : Type 0} (into : E → Copy Array E) where
  -- `for i := range *in { (*in)[i].DeepCopyInto(&(*out)[i]) }`
  abbrev pub copy_all : List E → Copy Array (List E)
  copy_all [] h = ([], h)
  copy_all (x ∷ xs) h = ((into x h).0 ∷ (copy_all xs (into x h).1).0, (copy_all xs (into x h).1).1)

module _ (Array : Type 0) {E : Type 0} (d : Deep Array E) where
  abbrev copy_elements : List E → Copy Array (List E)
  copy_elements = copy_all Array d.copy

  abbrev pub elements : Deep Array (List E)
  elements = record {
    copy = copy_elements;
    View = List d.View;
    view = λ xs h. map (λ x. d.view x h) xs;
    Within = λ xs h lo hi. All (λ x. d.Within x h lo hi) xs;
  }

  module _ (f : IsDeep Array E d) where
    all_reads :
        (xs : List E) (h h' : Heap Array) (lo hi : ℕ)
        → (elements).Within xs h lo hi
        → Same Array lo hi h h'
        → (elements).view xs h' ≡ elements.view xs h
    all_reads [] h h' lo hi w same = refl
    all_reads (x ∷ xs) h h' lo hi (w, ws) same =
        let first = f.reads x h h' lo hi w same in
        let rest = all_reads xs h h' lo hi ws same in λ i. first i ∷ rest i

    all_stays :
        (xs : List E) (h h' : Heap Array) (lo hi : ℕ)
        → (elements).Within xs h lo hi
        → Same Array lo hi h h'
        → (elements).Within xs h' lo hi
    all_stays [] h h' lo hi w same = tt
    all_stays (x ∷ xs) h h' lo hi (w, ws) same =
        (f.stays x h h' lo hi w same, all_stays xs h h' lo hi ws same)

    all_widens :
        (xs : List E) (h : Heap Array) (lo hi lo' hi' : ℕ)
        → (elements).Within xs h lo hi
        → lo' ≤ lo
        → hi ≤ hi'
        → (elements).Within xs h lo' hi'
    all_widens [] h lo hi lo' hi' w down up = tt
    all_widens (x ∷ xs) h lo hi lo' hi' (w, ws) down up =
        (f.widens x h lo hi lo' hi' w down up, all_widens xs h lo hi lo' hi' ws down up)

    all_grows : (xs : List E) (h : Heap Array) → h.next ≤ (copy_elements xs h).1.next
    all_grows [] h = omega arith
    all_grows (x ∷ xs) h =
        let one = f.grows x h in let two = all_grows xs (d.copy x h).1 in omega arith

    all_keeps : (xs : List E) (h : Heap Array) → Same Array 0 h.next h (copy_elements xs h).1
    all_keeps [] h p lower upper = refl
    all_keeps (x ∷ xs) h p lower upper =
        let one = f.grows x h in
        all_keeps xs (d.copy x h).1 p lower (omega arith) ∙ f.keeps x h p lower upper

    -- The elements that are left are as they were after the copy of the first.
    left_within :
        (x : E) (xs : List E) (h : Heap Array)
        → (elements).Within xs h 0 h.next
        → (elements).Within xs (d.copy x h).1 0 (d.copy x h).1.next
    left_within x xs h w =
        let mid = (d.copy x h).1 in
        all_widens xs mid 0 h.next 0 mid.next (all_stays xs h mid 0 h.next w (f.keeps x h))
          (omega arith) (f.grows x h)

    -- The first copy is as it was after the others.
    first_kept :
        (x : E) (xs : List E) (h : Heap Array)
        → Same Array h.next (d.copy x h).1.next (d.copy x h).1 (copy_elements xs (d.copy x h).1).1
    first_kept x xs h p lower upper = all_keeps xs (d.copy x h).1 p (omega arith) upper

    all_fresh :
        (xs : List E) (h : Heap Array)
        → (elements).Within xs h 0 h.next
        → (elements).Within
            (copy_elements xs h).0
            (copy_elements xs h).1
            h.next
            (copy_elements xs h).1.next
    all_fresh [] h w = tt
    all_fresh (x ∷ xs) h (w, ws) =
        let mid = (d.copy x h).1 in
        let end = (copy_elements xs mid).1 in
        (
          f.widens (d.copy x h).0 end h.next mid.next h.next end.next
              (f.stays (d.copy x h).0 mid end h.next mid.next (f.fresh x h w) (first_kept x xs h))
              (omega arith) (all_grows xs mid),
          all_widens (copy_elements xs mid).0 end mid.next end.next h.next end.next
              (all_fresh xs mid (left_within x xs h ws)) (f.grows x h) (omega arith),
        )

    all_copied :
        (xs : List E) (h : Heap Array)
        → (elements).Within xs h 0 h.next
        → (elements).view (copy_elements xs h).0 (copy_elements xs h).1 ≡ elements.view xs h
    all_copied [] h w = refl
    all_copied (x ∷ xs) h (w, ws) =
        let mid = (d.copy x h).1 in
        let end = (copy_elements xs mid).1 in
        let first =
          f.reads (d.copy x h).0 mid end h.next mid.next (f.fresh x h w) (first_kept x xs h)
          ∙ f.copied x h w in
        let rest =
          all_copied xs mid (left_within x xs h ws)
          ∙ all_reads xs h mid 0 h.next ws (f.keeps x h) in
        λ i. first i ∷ rest i

    pub elements-IsDeep : IsDeep Array (List E) elements
    elements-IsDeep = record {
      copied = all_copied;
      fresh = all_fresh;
      grows = all_grows;
      keeps = all_keeps;
      reads = all_reads;
      stays = all_stays;
      widens = all_widens;
    }
