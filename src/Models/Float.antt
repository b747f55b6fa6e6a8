-- ===== src/Models/Float.antt =====
-- What pkg/modelhub/modelscope.go uses of Go's float64: the conversion of an int, the division by a
-- power of two, which is exact, and `math.Ceil`.
use cpodoperator.Base.{
  ℕ, zero, suc, ◌+◌, ◌*◌, ◌/◌, ◌%◌, ◌^◌, ◌<◌, ◌≡◌, arith, true, ◌&&◌, ◌||◌, ◌==◌, nat_eq,
  ℕ_discrete, ltb, if◌then◌else◌, refl, ◌∙◌,
}
use cpodoperator.Base.Int.{ℤ, pos, negsuc, sub_ℕ}

-- `n` rounded to a multiple of `unit`: to the nearer one, and half way to the even one.
unfoldable round_to : ℕ → ℕ → ℕ
round_to unit n =
    let q = n / unit in
    let r = n % unit in
    if ltb unit (2 * r) || (unit == 2 * r && q % 2 == 1) then (q + 1) * unit else q * unit

-- 53 bits are kept. The recursion is on how many more may be dropped.
unfoldable round_bits : ℕ → ℕ → ℕ → ℕ
unfolding round_to
round_bits zero k n = round_to (2 ^ k) n
round_bits (suc more) k n =
    let rest = round_bits more (k + 1) n in
    if ltb n (2 ^ (53 + k)) then round_to (2 ^ k) n else rest

-- The float64 of a number below 2 ^ 64, which drops 11 bits at most.
unfoldable pub to_float64 : ℕ → ℕ
unfolding round_bits
to_float64 n = round_bits 11 0 n

-- `int64(math.Ceil(float64(x) / 1024 / 1024 / 1024))`
unfoldable pub ceil_gib : ℤ → ℤ
unfolding to_float64
ceil_gib (pos n) = pos ((to_float64 n + 1073741823) / 1073741824)
ceil_gib (negsuc n) = sub_ℕ 0 (to_float64 (suc n) / 1073741824)

round_to_one : (n : ℕ) → round_to 1 n ≡ n
unfolding round_to
round_to_one n = ground arith

round_bits_of_small : (more n : ℕ) → n < 9007199254740992 → round_bits (suc more) 0 n ≡ round_to 1 n
unfolding round_bits
round_bits_of_small more n h = let fits : ltb n 9007199254740992 ≡ true = ground arith in rw fits

-- Below 2 ^ 53 the conversion is exact.
pub to_float64_of_small : (n : ℕ) → n < 9007199254740992 → to_float64 n ≡ n
unfolding to_float64
to_float64_of_small n h = round_bits_of_small 10 n h ∙ round_to_one n

to_float64_test : to_float64 9007199254740993 ≡ 9007199254740992
unfolding to_float64 nat_eq ℕ_discrete
to_float64_test = refl

to_float64_up : to_float64 9007199254740995 ≡ 9007199254740996
unfolding to_float64 nat_eq ℕ_discrete
to_float64_up = refl
