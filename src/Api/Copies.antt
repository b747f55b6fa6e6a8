-- ===== src/Api/Copies.antt =====
-- api/v1beta1/zz_generated.deepcopy.go: the deep copies of a CPodJob's status and of a ModelStorage, with
-- the pointers and the slice that they go through. Left out are the copies of a CPodJob's
-- specification, and with it of a whole CPodJob: they call copies of other packages.
pub mod Kept
pub mod Deep
pub mod Objects
use cpodoperator.Base.{String, Bool, ℕ, ◌≡◌, refl, Option, none, some, List, [], ◌∷◌, map}
use cpodoperator.Base.Int.{ℤ}
use cpodoperator.Api.Job.{JobCondition}
use cpodoperator.Api.Storage.{ModelStorageStatus, ModelStorageSpec}
use cpodoperator.Api.Refs.{StatusRef, StorageRef, ModelStorageRef}
use cpodoperator.Api.Heap.{
  Address, Cell, of_time, of_text, of_conditions, Heap, alloc, content, InHeap,
}

-- `JobCondition.DeepCopyInto`: the two times are copied after the rest.
unfoldable pub copy_condition : JobCondition → JobCondition
copy_condition c = record c {
  last_update_time = c.last_update_time;
  last_transition_time = c.last_transition_time;
}

-- `make` and the loop over the elements, `new` and the assignment through the pointer, or `copy`.
unfoldable pub copy_cell : Cell → Cell
unfolding copy_condition
copy_cell (of_time t) = of_time t
copy_cell (of_text t) = of_text t
copy_cell (of_conditions cs) = of_conditions (map copy_condition cs)

copy_content : Heap → Option Address → Option Cell → Heap × Option Address
unfolding copy_cell
copy_content h p none = (h, p)
copy_content h p (some c) = let (h', a) = alloc h (copy_cell c) in (h', some a)

-- One field that is a pointer or a slice: nil stays nil.
unfoldable pub copy_field : Heap → Option Address → Heap × Option Address
unfolding copy_content
copy_field h none = (h, none)
copy_field h (some a) = copy_content h (some a) (h.cells a)

-- `CPodJobStatus.DeepCopyInto`
unfoldable pub copy_status : Heap → StatusRef → Heap × StatusRef
copy_status h s =
    let (h₁, conditions) = copy_field h s.conditions in
    let (h₂, start_time) = copy_field h₁ s.start_time in
    let (h₃, completion_time) = copy_field h₂ s.completion_time in
    let (h₄, last_reconcile_time) = copy_field h₃ s.last_reconcile_time in
    (
      h₄,
      record {
        conditions = conditions;
        start_time = start_time;
        completion_time = completion_time;
        last_reconcile_time = last_reconcile_time;
      },
    )

-- `ModelStorageStatus.DeepCopyInto`
unfoldable pub copy_storage : Heap → StorageRef → Heap × StorageRef
copy_storage h s =
    let (h₁, failure_message) = copy_field h s.failure_message in
    (h₁, record s { failure_message = failure_message })

-- `ModelStorage.DeepCopyInto`
unfoldable pub copy_model_storage :
    {M : Type 0} → (Heap → M → Heap × M) → Heap → ModelStorageRef M → Heap × ModelStorageRef M
copy_model_storage copy_meta h s =
    let (h₁, object_meta) = copy_meta h s.object_meta in
    let (h₂, status) = copy_storage h₁ s.status in
    (
      h₂,
      record { type_meta = s.type_meta; object_meta = object_meta; spec = s.spec; status = status },
    )

-- `DeepCopy` of each: of nil it is nil, else a new struct that is filled by `DeepCopyInto`.
module _ {S : Type 0} (copy_into : Heap → S → Heap × S) where
  filled : Heap × S → Heap × Option S
  filled (h, s) = (h, some s)

  unfoldable pub deep_copy : Heap → Option S → Heap × Option S
  unfolding filled
  deep_copy h none = (h, none)
  deep_copy h (some s) = filled (copy_into h s)

-- `DeepCopy` of the three structs.
unfoldable pub deep_copy_status : Heap → Option StatusRef → Heap × Option StatusRef
deep_copy_status = deep_copy copy_status

unfoldable pub deep_copy_storage_status : Heap → Option StorageRef → Heap × Option StorageRef
deep_copy_storage_status = deep_copy copy_storage

unfoldable pub deep_copy_model_storage :
    {M : Type 0}
    → (Heap → M → Heap × M)
    → Heap
    → Option (ModelStorageRef M)
    → Heap × Option (ModelStorageRef M)
deep_copy_model_storage copy_meta = deep_copy (copy_model_storage copy_meta)
