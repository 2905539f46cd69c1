-- ===== src/Tests/Copies.antt =====
-- Copies of a list of one disruption on a small heap, and the parameters of a request.
use node_disruption_controll.Prelude.{
  ℕ, String, false, some, [], ◌∷◌, ◌≡◌, refl, arith, ltb, if◌then◌else◌,
}
use node_disruption_controll.Prelude.Int.{pos}
use node_disruption_controll.Api.{granted}
use node_disruption_controll.DeepCopy.Heap.{Heap, nil, at, Same}
use node_disruption_controll.DeepCopy.Parts.{plain, plain-IsDeep}
use node_disruption_controll.DeepCopy.Slices.{copy_slice}
use node_disruption_controll.DeepCopy.Objects.{
  Machinery, NodeDisruption, ResourceList, Array, strings, node_disruptions, block,
}
use node_disruption_controll.DeepCopy.Copies.{MachineryCopies}
use node_disruption_controll.DeepCopy.Depth.{AreDeep}
use node_disruption_controll.DeepCopy.Independence.{
  of_disruption_list, methods_of, reading_of, deep_copy-independent,
}

-- The API machinery's types, as values without arrays.
abbrev flat : Machinery
flat = record {
  ObjectMeta = String;
  ListMeta = String;
  LabelSelector = String;
  Time = ℕ;
  Block = Unit;
}

abbrev flat_copies : MachineryCopies flat
flat_copies = record {
  object_meta = plain (Array flat) String;
  list_meta = plain (Array flat) String;
  label_selector = plain (Array flat) String;
  time = plain (Array flat) ℕ;
}

flat_deep : AreDeep flat flat_copies
flat_deep = record {
  object_meta = plain-IsDeep (Array flat) String;
  list_meta = plain-IsDeep (Array flat) String;
  label_selector = plain-IsDeep (Array flat) String;
  time = plain-IsDeep (Array flat) ℕ;
}

-- Granted on one node, whose name is in the array 0.
abbrev one : NodeDisruption flat
one = record {
  type_meta = record { kind = "NodeDisruption"; api_version = "v1alpha1" };
  object_meta = "one";
  spec = record {
    node_selector = "a=b";
    start_date = 0;
    do_not_grant_before = 0;
    duration = pos 0;
    retry = record { enabled = false; deadline = 0 };
    type_name = "drain";
  };
  status = record {
    state = granted;
    disrupted_disruption_budgets = nil;
    disrupted_nodes = at 0;
    next_retry_date = 0;
  };
}

abbrev listed : ResourceList flat
listed = record {
  type_meta = record { kind = "NodeDisruptionList"; api_version = "v1alpha1" };
  list_meta = "";
  items = at 1;
}

abbrev heap : Heap (Array flat)
heap = record {
  next = 2;
  array = λ p. if ltb p 1 then strings ("n1" ∷ []) else node_disruptions (one ∷ []);
}

-- All of its arrays are in use.
listed_within : (reading_of flat flat_copies of_disruption_list).Within listed heap 0 2
listed_within = (
  tt,
  (
    (
      omega arith,
      omega arith,
      (
        (
          tt,
          (
            (tt, (tt, (tt, ((tt, tt), tt)))),
            ((tt, ((omega arith, omega arith, (tt, tt)), (tt, tt))), tt),
          ),
        ),
        tt,
      ),
    ),
    tt,
  ),
)

-- The copy, with the heap that it leaves.
copied : ResourceList flat × Heap (Array flat)
copied = (methods_of flat flat_copies of_disruption_list).deep_copy_into listed heap

copied-next : copied.1.next ≡ 4
unfolding copied copy_slice
copied-next = refl

-- The copy's arrays are overwritten, and in the other heap those of the original.
abbrev new_overwritten : Heap (Array flat)
new_overwritten = record { next = 4; array = λ p. if ltb p 2 then copied.1.array p else block tt }

abbrev old_overwritten : Heap (Array flat)
old_overwritten = record { next = 4; array = λ p. if ltb p 2 then block tt else copied.1.array p }

new_overwritten-Same : Same (Array flat) 0 2 copied.1 new_overwritten
new_overwritten-Same p lower upper = ground arith

old_overwritten-Same : Same (Array flat) 2 copied.1.next copied.1 old_overwritten
old_overwritten-Same p lower upper = ground arith

deep_copy-independent_example :
    ((methods_of flat flat_copies of_disruption_list).deep_copy (some listed) heap
      ≡ (some copied.0, copied.1))
    × ((reading_of flat flat_copies of_disruption_list).view copied.0 copied.1
        ≡ (reading_of flat flat_copies of_disruption_list).view listed heap)
    × ((reading_of flat flat_copies of_disruption_list).view listed new_overwritten
        ≡ (reading_of flat flat_copies of_disruption_list).view listed heap)
    × ((reading_of flat flat_copies of_disruption_list).view copied.0 old_overwritten
        ≡ (reading_of flat flat_copies of_disruption_list).view listed heap)
unfolding copied
deep_copy-independent_example =
    deep_copy-independent flat flat_copies flat_deep of_disruption_list listed heap new_overwritten
      old_overwritten listed_within new_overwritten-Same old_overwritten-Same
