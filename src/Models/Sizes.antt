-- ===== src/Models/Sizes.antt =====
-- The size that pkg/modelhub/modelscope.go gives a model, and the volume claim that
-- internal/controller/modelstorage_controller.go makes of it.
use cpodoperator.Base.{ℕ, ◌+◌, ◌*◌, ◌/◌, ◌≤◌, ◌<◌, ◌≡◌, refl, ap, ◌∙◌, some, List, [], ◌∷◌, arith}
use cpodoperator.Base.Int.{pos, ◌+ℤ◌, ◌*ℤ◌, to_int64}
use cpodoperator.Models.Float.{ceil_gib, to_float64_of_small}
use cpodoperator.Models.Hub.{HubFile, FilesResp, got, add_sizes, size_of_files}
use cpodoperator.Models.Storage.{claim_bytes}

abbrev pub sum : List ℕ → ℕ
sum [] = 0
sum (n ∷ ns) = n + sum ns

-- The files' sizes are the numbers of a list.
abbrev pub HasSizes : List HubFile → List ℕ → Type 0
HasSizes [] [] = Unit
HasSizes (file ∷ files) (n ∷ ns) = (file.size ≡ pos n) × HasSizes files ns
HasSizes _ _ = ⊥

int64_add : (a n : ℕ) → a + n < 9223372036854775808 → to_int64 (pos a +ℤ pos n) ≡ pos (a + n)
unfolding to_int64 ◌+ℤ◌
int64_add a n h = ground arith

int64_mul : (n : ℕ) → n * 1024 < 9223372036854775808 → to_int64 (pos n *ℤ pos 1024) ≡ pos (n * 1024)
unfolding to_int64 ◌*ℤ◌
int64_mul n h = ground arith

ceil_gib_of_small :
    (n : ℕ) → n < 9007199254740992 → ceil_gib (pos n) ≡ pos ((n + 1073741823) / 1073741824)
unfolding ceil_gib
ceil_gib_of_small n h = ap (λ m. pos ((m + 1073741823) / 1073741824)) (to_float64_of_small n h)

add_sizes-sum :
    (acc : ℕ) (files : List HubFile) (ns : List ℕ)
    → HasSizes files ns
    → acc + sum ns < 9223372036854775808
    → add_sizes (pos acc) files ≡ pos (acc + sum ns)
unfolding add_sizes
add_sizes-sum acc [] [] h small = ground arith
add_sizes-sum acc (file ∷ files) (n ∷ ns) (e, h) small =
    rw (e, int64_add acc n (omega arith), add_sizes-sum (acc + n) files ns h (omega arith))
      (ground arith)
add_sizes-sum acc [] (n ∷ ns) h small = absurd h
add_sizes-sum acc (file ∷ files) [] h small = absurd h

total_sizes :
    (files : List HubFile) (ns : List ℕ)
    → HasSizes files ns
    → sum ns < 9223372036854775808
    → add_sizes (pos 0) files ≡ pos (sum ns)
total_sizes files ns h small = add_sizes-sum 0 files ns h (omega arith) ∙ ap pos (omega arith)

claim_bytes_of_small : (g : ℕ) → g ≤ 8388608 → claim_bytes (pos g) ≡ pos (g * 1073741824)
unfolding claim_bytes
claim_bytes_of_small g h =
    rw
      (
        int64_mul g (omega arith),
        int64_mul (g * 1024) (omega arith),
        int64_mul (g * 1024 * 1024) (omega arith),
      )
      (ground arith)

-- If the sizes of a model's files are not negative and sum up to less than 2 ^ 53 bytes, then the
-- hub's answer is a size in GiB for which the claim asks for at least as many bytes as the files
-- have, and for less than 2 ^ 30 more.
pub size_of_files-claim_bytes :
    (resp : FilesResp) (files : List HubFile) (ns : List ℕ)
    → resp.content ≡ some files
    → HasSizes files ns
    → sum ns < 9007199254740992
    → (g : ℕ) × (b : ℕ) × (size_of_files resp ≡ got (pos g))
      × (claim_bytes (pos g) ≡ pos b)
      × (sum ns ≤ b)
      × (b < sum ns + 1073741824)
unfolding size_of_files
size_of_files-claim_bytes resp files ns e h small =
    let g : ℕ = (sum ns + 1073741823) / 1073741824 in
    (
      g,
      g * 1073741824,
      rw (e, total_sizes files ns h (omega arith), ceil_gib_of_small (sum ns) small) refl,
      claim_bytes_of_small g (omega arith),
      omega arith,
      omega arith,
    )
