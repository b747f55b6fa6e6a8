-- ===== src/Api/Copies/Objects.antt =====
-- The deep copies of whole objects of api/v1beta1/zz_generated.deepcopy.go.
use cpodoperator.Base.{◌≡◌, refl, ap, Option, none, some, List, All}
use cpodoperator.Api.Heap.{Address, Cell, Heap, write_all, Outside, Extends, Extends-refl}
use cpodoperator.Api.Refs.{
  ModelStorageRef, read_storage, read_model_storage, StatusRef, read_status,
}
use cpodoperator.Api.Copies.{
  copy_field, copy_status, copy_storage, copy_model_storage, deep_copy, deep_copy_status,
}
use cpodoperator.Api.Copies.Kept.{IsWhole, IsDeep, field-IsDeep}
use cpodoperator.Api.Copies.Deep.{StatusIsWhole, status-IsDeep}

pub record ModelStorageIsWhole {M : Type 0} (Whole : Heap → M → Type 0) (h : Heap)
    (s : ModelStorageRef M) : Type 0 where
  pub object_meta : Whole h s.object_meta
  pub status : IsWhole h s.status.failure_message

abbrev pub PointsWhole : {S : Type 0} → (Heap → S → Type 0) → Heap → Option S → Type 0
PointsWhole Whole h none = Unit
PointsWhole Whole h (some s) = Whole h s

abbrev held : {V : Type 0} → Option V → Option (Option V)
held none = none
held (some v) = some (some v)

-- What is read of a nil pointer and of a struct.
abbrev pub read_pointer :
    {S V : Type 0} → (Heap → S → Option V) → Heap → Option S → Option (Option V)
read_pointer read h none = some none
read_pointer read h (some s) = held (read h s)

module _ {M V : Type 0} (copy_meta : Heap → M → Heap × M) (read_meta : Heap → M → Option V)
    (Whole : Heap → M → Type 0) (meta : IsDeep copy_meta read_meta Whole) where
  -- Let the copy of the metadata be deep. Where the failure message of a ModelStorage is nil or in
  -- memory in use, its deep copy reads as the ModelStorage did when it was copied, whatever is then
  -- written to any memory but that which the copy took into use.
  pub copy_model_storage-stays :
      (h : Heap) (s : ModelStorageRef M) (ws : List (Address × Cell))
      → ModelStorageIsWhole Whole h s
      → All (λ w. Outside h (copy_model_storage copy_meta h s).0 w.0) ws
      → let (h', t) = copy_model_storage copy_meta h s in
        read_model_storage read_meta (write_all h' ws) t ≡ read_model_storage read_meta h s
  unfolding copy_model_storage read_model_storage copy_storage read_storage
  copy_model_storage-stays h s ws w below =
      let p = s.status.failure_message in
      let h₁ : Heap = (copy_meta h s.object_meta).0 in
      let h₂ : Heap = (copy_field h₁ p).0 in
      let e₁ : Extends h h₁ = meta.extends h s.object_meta w.object_meta in
      let e₂ : Extends h₁ h₂ = field-IsDeep.extends h₁ p (field-IsDeep.moved h h₁ p e₁ w.status) in
      rw
        (
          meta.stays h h s.object_meta h₂ ws (Extends-refl h) w.object_meta e₂ below,
          field-IsDeep.stays h h₁ p h₂ ws e₁ w.status (Extends-refl h₂) below,
        )
        refl

-- Where the pointers and the slice of a CPodJob's status are nil or to memory in use, what `DeepCopy`
-- of it gives reads as the status did before it was called, whatever is then written to any memory but
-- that which `DeepCopy` took into use; of nil it gives nil.
pub deep_copy_status-stays :
    (h : Heap) (o : Option StatusRef) (ws : List (Address × Cell))
    → PointsWhole StatusIsWhole h o
    → All (λ w. Outside h (deep_copy_status h o).0 w.0) ws
    → let (h', t) = deep_copy_status h o in
      read_pointer read_status (write_all h' ws) t ≡ read_pointer read_status h o
unfolding deep_copy_status deep_copy
deep_copy_status-stays h none ws w below = refl
deep_copy_status-stays h (some s) ws w below =
    let h' : Heap = (copy_status h s).0 in
    ap held (status-IsDeep.stays h h s h' ws (Extends-refl h) w (Extends-refl h') below)
