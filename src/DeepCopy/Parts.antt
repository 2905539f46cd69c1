-- ===== src/DeepCopy/Parts.antt =====
-- What a deep copy has to do, and that values made of parts that are copied deeply are copied deeply.
use node_disruption_controll.Prelude.{ℕ, ◌≤◌, ◌≡◌, refl, sym, ap, subst, ◌∙◌, arith}
use node_disruption_controll.DeepCopy.Heap.{Heap, Copy, Same}

module _ (Array : Type 0) where
  -- A type whose values may refer to arrays: its copy, what is read of a value in a heap, and that all
  -- its arrays lie from an address on, up to another.
  pub record Deep (A : Type 0) : Type 1 where
    pub copy : A → Copy Array A
    pub View : Type 0
    pub view : A → Heap Array → View
    pub Within : A → Heap Array → ℕ → ℕ → Type 0

  -- A copy reads like the original and has arrays of its own, and nothing in use has changed. What a
  -- value reads like depends on its arrays only.
  pub record IsDeep (A : Type 0) (d : Deep A) : Type 0 where
    pub copied :
        (a : A) (h : Heap Array)
        → d.Within a h 0 h.next
        → d.view (d.copy a h).0 (d.copy a h).1 ≡ d.view a h
    pub fresh :
        (a : A) (h : Heap Array)
        → d.Within a h 0 h.next
        → d.Within (d.copy a h).0 (d.copy a h).1 h.next (d.copy a h).1.next
    pub grows : (a : A) (h : Heap Array) → h.next ≤ (d.copy a h).1.next
    pub keeps : (a : A) (h : Heap Array) → Same Array 0 h.next h (d.copy a h).1
    pub reads :
        (a : A) (h h' : Heap Array) (lo hi : ℕ)
        → d.Within a h lo hi
        → Same Array lo hi h h'
        → d.view a h' ≡ d.view a h
    pub stays :
        (a : A) (h h' : Heap Array) (lo hi : ℕ)
        → d.Within a h lo hi
        → Same Array lo hi h h'
        → d.Within a h' lo hi
    pub widens :
        (a : A) (h : Heap Array) (lo hi lo' hi' : ℕ)
        → d.Within a h lo hi
        → lo' ≤ lo
        → hi ≤ hi'
        → d.Within a h lo' hi'

  -- Values without arrays: an assignment copies them.
  abbrev pub plain : (A : Type 0) → Deep A
  plain A = record { copy = λ a h. (a, h); View = A; view = λ a h. a; Within = λ a h lo hi. Unit }

  pub plain-IsDeep : (A : Type 0) → IsDeep A (plain A)
  plain-IsDeep A = record {
    copied = λ a h w. refl;
    fresh = λ a h w. tt;
    grows = λ a h. omega arith;
    keeps = λ a h p lower upper. refl;
    reads = λ a h h' lo hi w same. refl;
    stays = λ a h h' lo hi w same. tt;
    widens = λ a h lo hi lo' hi' w down up. tt;
  }

  -- Two parts, one after the other.
  abbrev pub pair : {A B : Type 0} → Deep A → Deep B → Deep (A × B)
  pair d e = record {
    copy = λ p h.
        (((d.copy p.0 h).0, (e.copy p.1 (d.copy p.0 h).1).0), (e.copy p.1 (d.copy p.0 h).1).1);
    View = d.View × e.View;
    view = λ p h. (d.view p.0 h, e.view p.1 h);
    Within = λ p h lo hi. d.Within p.0 h lo hi × e.Within p.1 h lo hi;
  }

  module _ {A B : Type 0} {d : Deep A} {e : Deep B} (f : IsDeep A d) (g : IsDeep B e) where
    -- The heap between the two copies.
    abbrev between : A → Heap Array → Heap Array
    between a h = (d.copy a h).1

    second_within :
        (a : A) (b : B) (h : Heap Array)
        → e.Within b h 0 h.next
        → e.Within b (between a h) 0 (between a h).next
    second_within a b h w =
        g.widens b (between a h) 0 h.next 0 (between a h).next
          (g.stays b h (between a h) 0 h.next w (f.keeps a h)) (omega arith) (f.grows a h)

    -- The arrays of the first copy are as they were after the second.
    first_kept :
        (a : A) (b : B) (h : Heap Array)
        → Same Array h.next (between a h).next (between a h) (e.copy b (between a h)).1
    first_kept a b h p lower upper = g.keeps b (between a h) p (omega arith) upper

    pair_fresh :
        (p : A × B) (h : Heap Array)
        → d.Within p.0 h 0 h.next × e.Within p.1 h 0 h.next
        → (pair d e).Within
            ((pair d e).copy p h).0
            ((pair d e).copy p h).1
            h.next
            ((pair d e).copy p h).1.next
    pair_fresh (a, b) h (w, v) =
        let mid = between a h in
        let end = (e.copy b mid).1 in
        (
          f.widens (d.copy a h).0 end h.next mid.next h.next end.next
              (f.stays (d.copy a h).0 mid end h.next mid.next (f.fresh a h w) (first_kept a b h))
              (omega arith) (g.grows b mid),
          g.widens (e.copy b mid).0 end mid.next end.next h.next end.next
              (g.fresh b mid (second_within a b h v)) (f.grows a h) (omega arith),
        )

    pub pair-IsDeep : IsDeep (A × B) (pair d e)
    pair-IsDeep = record {
      copied = λ p h w.
          let mid = between p.0 h in
          let end = (e.copy p.1 mid).1 in
          let first =
            f.reads (d.copy p.0 h).0 mid end h.next mid.next (f.fresh p.0 h w.0)
              (first_kept p.0 p.1 h)
            ∙ f.copied p.0 h w.0 in
          let second =
            g.copied p.1 mid (second_within p.0 p.1 h w.1)
            ∙ g.reads p.1 h mid 0 h.next w.1 (f.keeps p.0 h) in
          λ i. (first i, second i);
      fresh = pair_fresh;
      grows =
          λ p h. let one = f.grows p.0 h in let two = g.grows p.1 (between p.0 h) in omega arith;
      keeps = λ p h q lower upper.
          let one = f.grows p.0 h in
          g.keeps p.1 (between p.0 h) q lower (omega arith) ∙ f.keeps p.0 h q lower upper;
      reads = λ p h h' lo hi w same.
          let first = f.reads p.0 h h' lo hi w.0 same in
          let second = g.reads p.1 h h' lo hi w.1 same in λ i. (first i, second i);
      stays =
          λ p h h' lo hi w same. (f.stays p.0 h h' lo hi w.0 same, g.stays p.1 h h' lo hi w.1 same);
      widens = λ p h lo hi lo' hi' w down up.
          (f.widens p.0 h lo hi lo' hi' w.0 down up, g.widens p.1 h lo hi lo' hi' w.1 down up);
    }

  -- A record by its fields.
  abbrev pub by_fields : {A R : Type 0} → (R → A) → (A → R) → Deep A → Deep R
  by_fields fields build d = record {
    copy = λ r h. (build (d.copy (fields r) h).0, (d.copy (fields r) h).1);
    View = d.View;
    view = λ r h. d.view (fields r) h;
    Within = λ r h lo hi. d.Within (fields r) h lo hi;
  }

  module _ {A R : Type 0} (fields : R → A) (build : A → R) {d : Deep A} (f : IsDeep A d)
      (same : (a : A) → fields (build a) ≡ a) where
    pub by_fields-IsDeep : IsDeep R (by_fields fields build d)
    by_fields-IsDeep = record {
      copied = λ r h w.
          ap (λ a. d.view a (d.copy (fields r) h).1) (same (d.copy (fields r) h).0)
          ∙ f.copied (fields r) h w;
      fresh = λ r h w.
          subst (λ a. d.Within a (d.copy (fields r) h).1 h.next (d.copy (fields r) h).1.next)
            (sym (same (d.copy (fields r) h).0)) (f.fresh (fields r) h w);
      grows = λ r h. f.grows (fields r) h;
      keeps = λ r h. f.keeps (fields r) h;
      reads = λ r. f.reads (fields r);
      stays = λ r. f.stays (fields r);
      widens = λ r. f.widens (fields r);
    }
