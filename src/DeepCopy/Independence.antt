-- ===== src/DeepCopy/Independence.antt =====
-- What a copy shares with its original: nothing.
use node_disruption_controll.Prelude.{some, ◌≡◌, refl, ◌∙◌, sym, subst}
use node_disruption_controll.DeepCopy.Heap.{Heap, Same}
use node_disruption_controll.DeepCopy.Parts.{Deep, IsDeep}
use node_disruption_controll.DeepCopy.Objects.{
  Machinery, NodeDisruption, ApplicationDisruptionBudget, NodeDisruptionBudget, ResourceList, Array,
}
use node_disruption_controll.DeepCopy.Copies.{
  MachineryCopies, ObjectMethods, node_disruption_methods, application_disruption_budget_methods,
  node_disruption_budget_methods, node_disruption_list_methods,
  application_disruption_budget_list_methods, node_disruption_budget_list_methods,
}
use node_disruption_controll.DeepCopy.Resources.{
  disruption, application_budget, pool_budget, disruption_list, application_list, pool_list,
}
use node_disruption_controll.DeepCopy.Depth.{
  AreDeep, disruption-IsDeep, application_budget-IsDeep, pool_budget-IsDeep, disruption_list-IsDeep,
  application_list-IsDeep, pool_list-IsDeep,
}

-- The kinds of objects.
pub data Kind : Type 0 where
  of_disruption of_application of_pool : Kind
  of_disruption_list of_application_list of_pool_list : Kind

module _ (m : Machinery) (x : MachineryCopies m) where
  abbrev Carrier : Kind → Type 0
  Carrier of_disruption = NodeDisruption m
  Carrier of_application = ApplicationDisruptionBudget m
  Carrier of_pool = NodeDisruptionBudget m
  Carrier of_disruption_list = ResourceList m
  Carrier of_application_list = ResourceList m
  Carrier of_pool_list = ResourceList m

  abbrev pub methods_of : (k : Kind) → ObjectMethods m (Carrier k)
  methods_of of_disruption = node_disruption_methods m x
  methods_of of_application = application_disruption_budget_methods m x
  methods_of of_pool = node_disruption_budget_methods m x
  methods_of of_disruption_list = node_disruption_list_methods m x
  methods_of of_application_list = application_disruption_budget_list_methods m x
  methods_of of_pool_list = node_disruption_budget_list_methods m x

  -- What is read of an object, with the arrays that it refers to.
  abbrev pub reading_of : (k : Kind) → Deep (Array m) (Carrier k)
  reading_of of_disruption = disruption m x
  reading_of of_application = application_budget m x
  reading_of of_pool = pool_budget m x
  reading_of of_disruption_list = disruption_list m x
  reading_of of_application_list = application_list m x
  reading_of of_pool_list = pool_list m x

  module _ (laws : AreDeep m x) where
    reading-IsDeep : (k : Kind) → IsDeep (Array m) (Carrier k) (reading_of k)
    reading-IsDeep of_disruption = disruption-IsDeep m x laws
    reading-IsDeep of_application = application_budget-IsDeep m x laws
    reading-IsDeep of_pool = pool_budget-IsDeep m x laws
    reading-IsDeep of_disruption_list = disruption_list-IsDeep m x laws
    reading-IsDeep of_application_list = application_list-IsDeep m x laws
    reading-IsDeep of_pool_list = pool_list-IsDeep m x laws

    into-copy :
        (k : Kind) (a : Carrier k) (h : Heap (Array m))
        → (reading_of k).copy a h ≡ (methods_of k).deep_copy_into a h
    into-copy of_disruption a h = refl
    into-copy of_application a h = refl
    into-copy of_pool a h = refl
    into-copy of_disruption_list a h = refl
    into-copy of_application_list a h = refl
    into-copy of_pool_list a h = refl

    -- `DeepCopy` copies by the kind's `DeepCopyInto`.
    deep_copy-some :
        (k : Kind) (a : Carrier k) (h : Heap (Array m))
        → let out = (methods_of k).deep_copy_into a h in
          (methods_of k).deep_copy (some a) h ≡ (some out.0, out.1)
    deep_copy-some of_disruption a h = refl
    deep_copy-some of_application a h = refl
    deep_copy-some of_pool a h = refl
    deep_copy-some of_disruption_list a h = refl
    deep_copy-some of_application_list a h = refl
    deep_copy-some of_pool_list a h = refl

    -- The three readings, once something has happened.
    abbrev ReadAlike :
        (k : Kind)
        → Carrier k
        → Heap (Array m)
        → Heap (Array m)
        → Heap (Array m)
        → Carrier k × Heap (Array m)
        → Type 0
    ReadAlike k a h later later' out =
        ((reading_of k).view out.0 out.1 ≡ (reading_of k).view a h)
        × ((reading_of k).view a later ≡ (reading_of k).view a h)
        × ((reading_of k).view out.0 later' ≡ (reading_of k).view a h)

    copy-independent :
        (k : Kind) (a : Carrier k) (h later later' : Heap (Array m))
        → (reading_of k).Within a h 0 h.next
        → Same (Array m) 0 h.next ((reading_of k).copy a h).1 later
        → Same (Array m) h.next ((reading_of k).copy a h).1.next ((reading_of k).copy a h).1 later'
        → ReadAlike k a h later later' ((reading_of k).copy a h)
    copy-independent k a h later later' within same same' =
        let d = reading_of k in
        let deep = reading-IsDeep k in
        let (c, h') = d.copy a h in
        (
          deep.copied a h within,
          deep.reads a h later 0 h.next within
              (λ p lower upper. same p lower upper ∙ deep.keeps a h p lower upper),
          deep.reads c h' later' h.next h'.next (deep.fresh a h within) same'
              ∙ deep.copied a h within,
        )

    -- `DeepCopy` of an object of any kind, whose arrays are in the heap, gives the copy that its
    -- `DeepCopyInto` makes, which reads the same. Whatever has happened later to the arrays that the
    -- copy has made, the original reads as before, and whatever has happened later to the older
    -- arrays, the copy reads as the original did. Condition: the copies of the API machinery's own
    -- types are deep.
    pub deep_copy-independent :
        (k : Kind) (a : Carrier k) (h later later' : Heap (Array m))
        → (reading_of k).Within a h 0 h.next
        → Same (Array m) 0 h.next ((methods_of k).deep_copy_into a h).1 later
        → Same
            (Array m)
            h.next
            ((methods_of k).deep_copy_into a h).1.next
            ((methods_of k).deep_copy_into a h).1
            later'
        → let out = (methods_of k).deep_copy_into a h in
          ((methods_of k).deep_copy (some a) h ≡ (some out.0, out.1))
          × ((reading_of k).view out.0 out.1 ≡ (reading_of k).view a h)
          × ((reading_of k).view a later ≡ (reading_of k).view a h)
          × ((reading_of k).view out.0 later' ≡ (reading_of k).view a h)
    deep_copy-independent k a h later later' within same same' =
        let made = into-copy k a h in
        let alike = subst (ReadAlike k a h later later') made (
          copy-independent k a h later later' within
            (subst (λ (out : Carrier k × _). Same (Array m) 0 h.next out.1 later) (sym made) same)
            (subst (λ (out : Carrier k × _). Same (Array m) h.next out.1.next out.1 later')
              (sym made) same')) in
        (deep_copy-some k a h, alike.0, alike.1, alike.2)
