-- ===== src/Api/Copies/Deep.antt =====
-- The deep copies of api/v1beta1/zz_generated.deepcopy.go, struct by struct.
use cpodoperator.Base.{◌≡◌, refl, List, All}
use cpodoperator.Api.Heap.{Address, Cell, Heap, write_all, Outside, Extends, Extends-trans}
use cpodoperator.Api.Refs.{StatusRef, read_status}
use cpodoperator.Api.Copies.{copy_field, copy_status}
use cpodoperator.Api.Copies.Kept.{IsWhole, IsDeep, field-IsDeep}

-- The status is not torn: each of its pointers and its slice is whole.
pub record StatusIsWhole (h : Heap) (s : StatusRef) : Type 0 where
  pub conditions : IsWhole h s.conditions
  pub start_time : IsWhole h s.start_time
  pub completion_time : IsWhole h s.completion_time
  pub last_reconcile_time : IsWhole h s.last_reconcile_time

status-moved : (g h : Heap) (s : StatusRef) → Extends g h → StatusIsWhole g s → StatusIsWhole h s
status-moved g h s e w = record {
  conditions = field-IsDeep.moved g h s.conditions e w.conditions;
  start_time = field-IsDeep.moved g h s.start_time e w.start_time;
  completion_time = field-IsDeep.moved g h s.completion_time e w.completion_time;
  last_reconcile_time = field-IsDeep.moved g h s.last_reconcile_time e w.last_reconcile_time;
}

-- What the four copies of a status add to the memory, one after the other.
status-grows :
    (h : Heap) (s : StatusRef)
    → StatusIsWhole h s
    → let h₁ = (copy_field h s.conditions).0 in
      let h₂ = (copy_field h₁ s.start_time).0 in
      let h₃ = (copy_field h₂ s.completion_time).0 in
      let h₄ = (copy_field h₃ s.last_reconcile_time).0 in
      Extends h h₁ × Extends h₁ h₂ × Extends h₂ h₃ × Extends h₃ h₄
status-grows h s w =
    let h₁ : Heap = (copy_field h s.conditions).0 in
    let h₂ : Heap = (copy_field h₁ s.start_time).0 in
    let h₃ : Heap = (copy_field h₂ s.completion_time).0 in
    let e₁ : Extends h h₁ = field-IsDeep.extends h s.conditions w.conditions in
    let w₁ : StatusIsWhole h₁ s = status-moved h h₁ s e₁ w in
    let e₂ : Extends h₁ h₂ = field-IsDeep.extends h₁ s.start_time w₁.start_time in
    let w₂ : StatusIsWhole h₂ s = status-moved h₁ h₂ s e₂ w₁ in
    let e₃ : Extends h₂ h₃ = field-IsDeep.extends h₂ s.completion_time w₂.completion_time in
    let w₃ : StatusIsWhole h₃ s = status-moved h₂ h₃ s e₃ w₂ in
    (e₁, e₂, e₃, field-IsDeep.extends h₃ s.last_reconcile_time w₃.last_reconcile_time)

status-stays :
    (g h : Heap) (s : StatusRef) (h'' : Heap) (ws : List (Address × Cell))
    → Extends g h
    → StatusIsWhole g s
    → Extends (copy_status h s).0 h''
    → All (λ w. Outside g h'' w.0) ws
    → read_status (write_all h'' ws) (copy_status h s).1 ≡ read_status g s
unfolding copy_status read_status
status-stays g h s h'' ws e w later below =
    let h₁ : Heap = (copy_field h s.conditions).0 in
    let h₂ : Heap = (copy_field h₁ s.start_time).0 in
    let h₃ : Heap = (copy_field h₂ s.completion_time).0 in
    let h₄ : Heap = (copy_field h₃ s.last_reconcile_time).0 in
    let (e₁, e₂, e₃, e₄) = status-grows h s (status-moved g h s e w) in
    let g₁ : Extends g h₁ = Extends-trans g h h₁ e e₁ in
    let g₂ : Extends g h₂ = Extends-trans g h₁ h₂ g₁ e₂ in
    let g₃ : Extends g h₃ = Extends-trans g h₂ h₃ g₂ e₃ in
    let l₃ : Extends h₃ h'' = Extends-trans h₃ h₄ h'' e₄ later in
    let l₂ : Extends h₂ h'' = Extends-trans h₂ h₃ h'' e₃ l₃ in
    let l₁ : Extends h₁ h'' = Extends-trans h₁ h₂ h'' e₂ l₂ in
    rw
      (
        field-IsDeep.stays g h s.conditions h'' ws e w.conditions l₁ below,
        field-IsDeep.stays g h₁ s.start_time h'' ws g₁ w.start_time l₂ below,
        field-IsDeep.stays g h₂ s.completion_time h'' ws g₂ w.completion_time l₃ below,
        field-IsDeep.stays g h₃ s.last_reconcile_time h'' ws g₃ w.last_reconcile_time later below,
      )
      refl

status-Extends : (h : Heap) (s : StatusRef) → StatusIsWhole h s → Extends h (copy_status h s).0
unfolding copy_status
status-Extends h s w =
    let h₁ : Heap = (copy_field h s.conditions).0 in
    let h₂ : Heap = (copy_field h₁ s.start_time).0 in
    let h₃ : Heap = (copy_field h₂ s.completion_time).0 in
    let h₄ : Heap = (copy_field h₃ s.last_reconcile_time).0 in
    let (e₁, e₂, e₃, e₄) = status-grows h s w in
    Extends-trans h h₁ h₄ e₁ (Extends-trans h₁ h₂ h₄ e₂ (Extends-trans h₂ h₃ h₄ e₃ e₄))

pub status-IsDeep : IsDeep copy_status read_status StatusIsWhole
status-IsDeep = record { extends = status-Extends; moved = status-moved; stays = status-stays }
