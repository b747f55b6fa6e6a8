-- ===== src/Tests/Copies.antt =====
-- The status of a running CPodJob in memory, its deep copy, and the theorem on it.
use cpodoperator.Base.{zero, suc, ◌≡◌, refl, Option, none, some, [], ◌∷◌, arith, nat_eq, ℕ}
use cpodoperator.Api.Heap.{Cell, of_time, of_conditions, Heap, write_all, content}
use cpodoperator.Api.Refs.{StatusRef, read_status}
use cpodoperator.Api.Copies.{deep_copy_status}
use cpodoperator.Api.Copies.Deep.{StatusIsWhole}
use cpodoperator.Api.Copies.Objects.{read_pointer, deep_copy_status-stays}
use cpodoperator.Tests.Status.{of_running}

abbrev cell_at : ℕ → Option Cell
cell_at zero = some (of_conditions of_running.conditions)
cell_at (suc zero) = some (of_time 100)
cell_at (suc (suc n)) = none

abbrev heap : Heap
heap = record { next = 2; cells = cell_at }

abbrev status : StatusRef
status = record {
  conditions = some 0;
  start_time = some 1;
  completion_time = none;
  last_reconcile_time = none;
}

status_is_whole : StatusIsWhole heap status
status_is_whole = record {
  conditions = (omega arith, of_conditions of_running.conditions, refl);
  start_time = (omega arith, of_time 100, refl);
  completion_time = tt;
  last_reconcile_time = tt;
}

-- The conditions of the original are overwritten after the copy.
deep_copy_status-stays_example :
    let (h, t) = deep_copy_status heap (some status) in
    read_pointer read_status (write_all h ((0, of_conditions []) ∷ [])) t
    ≡ read_pointer read_status heap (some status)
deep_copy_status-stays_example =
    deep_copy_status-stays heap (some status) ((0, of_conditions []) ∷ []) status_is_whole
      (omega arith, tt)

read_status_test : read_status heap status ≡ some (record of_running { start_time = some 100 })
unfolding read_status content
read_status_test = refl
