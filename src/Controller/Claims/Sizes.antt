-- ===== src/Controller/Claims/Sizes.antt =====
-- The sizes of the volume claims that internal/controller/cpodjob_controller.go creates: the fields
-- are in MB as int32, and they are multiplied up to bytes before the conversion to int64.
use cpodoperator.Base.{ℕ, ◌*◌, ◌-◌, ◌≤◌, ◌<◌, ◌≡◌, ◌↔◌, arith}
use cpodoperator.Base.Int.{pos, negsuc, ◌*ℤ◌, to_int32}
use cpodoperator.Controller.Claims.{requested_storage}

-- The two products of a size that is not negative wrap around as one.
requested_storage-pos :
    (n : ℕ) → n < 2147483648 → requested_storage (pos n) ≡ to_int32 (pos (n * 1048576))
unfolding requested_storage to_int32 ◌*ℤ◌
requested_storage-pos n h = ground arith

-- For a size in MB that is not negative and in the range of int32, a claim asks for as many bytes
-- as the size stands for exactly if it is under 2048.
pub requested_storage_iff :
    (n : ℕ) → n < 2147483648 → (requested_storage (pos n) ≡ pos (n * 1048576)) ↔ (n < 2048)
unfolding to_int32
requested_storage_iff n h = rw requested_storage-pos (λ e. ground arith, λ k. ground arith)

-- For a size of `n` MB from 2048 up to 4095 the claim asks for `n * 2 ^ 20 - 2 ^ 32` bytes, a
-- negative number.
pub requested_storage_negative :
    (n : ℕ) → 2048 ≤ n → n < 4096 → requested_storage (pos n) ≡ negsuc (4294967295 - n * 1048576)
unfolding to_int32
requested_storage_negative n h k = rw (requested_storage-pos n (omega arith)) (ground arith)
