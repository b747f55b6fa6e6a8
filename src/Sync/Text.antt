-- ===== src/Sync/Text.antt =====
-- What internal/synchronizer uses of Go's `strings` and `strconv`.
use Prim.Native.Char.{Char, code}
use cpodoperator.Base.{
  ℕ, ◌+◌, String, ◌&&◌, List, [], ◌∷◌, map, ◌==◌, nat_eq, leb, if◌then◌else◌, Eq, ℕ_discrete,
}

-- The code points of a text.
abbrev pub codes : String → List ℕ
codes String.[] = []
codes (String.◌∷◌ c s) = code c ∷ codes s

-- The lower case of a code point. Beyond ASCII only the two code points are mapped whose lower
-- case is in ASCII: a text is lowered here only to be compared with an ASCII text.
unfoldable pub to_lower : ℕ → ℕ
to_lower c =
    if leb b'A' c && leb c b'Z'
    then c + 32
    else if c == 0x130
    then b'i'
    else if c == 0x212a
    then b'k'
    else c

abbrev pub to_lower_codes : String → List ℕ
to_lower_codes s = map to_lower (codes s)

abbrev capitals : List (Char × Char)
capitals =
    ("İ", "i")
    ∷ ("K", "k")
    ∷ ("A", "a")
    ∷ ("B", "b")
    ∷ ("C", "c")
    ∷ ("D", "d")
    ∷ ("E", "e")
    ∷ ("F", "f")
    ∷ ("G", "g")
    ∷ ("H", "h")
    ∷ ("I", "i")
    ∷ ("J", "j")
    ∷ ("K", "k")
    ∷ ("L", "l")
    ∷ ("M", "m")
    ∷ ("N", "n")
    ∷ ("O", "o")
    ∷ ("P", "p")
    ∷ ("Q", "q")
    ∷ ("R", "r")
    ∷ ("S", "s")
    ∷ ("T", "t")
    ∷ ("U", "u")
    ∷ ("V", "v")
    ∷ ("W", "w")
    ∷ ("X", "x")
    ∷ ("Y", "y")
    ∷ ("Z", "z")
    ∷ []

look_up_char : Char → List (Char × Char) → Char
look_up_char c [] = c
look_up_char c ((big, small) ∷ rest) = if code c == code big then small else look_up_char c rest

-- strings.ToLower of a text of ASCII characters and of the two that `to_lower` maps to such.
unfoldable pub lower : String → String
unfolding look_up_char
lower String.[] = String.[]
lower (String.◌∷◌ c s) = String.◌∷◌ (look_up_char c capitals) (lower s)

unfoldable pub Codes-discrete : Discrete (List ℕ)
unfolding ℕ_discrete
Codes-discrete = hlevel ℕ_discrete

instance unfoldable pub codes_eq : Eq (List ℕ)
unfolding Codes-discrete
codes_eq = record { dec = Codes-discrete }

abbrev prepend : Char → List String → List String
prepend c [] = (String.◌∷◌ c String.[]) ∷ []
prepend c (w ∷ ws) = (String.◌∷◌ c w) ∷ ws

-- strings.Split(s, " ")
unfoldable pub split_spaces : String → List String
split_spaces String.[] = String.[] ∷ []
split_spaces (String.◌∷◌ c s) =
    let rest = split_spaces s in if code c == b' ' then String.[] ∷ rest else prepend c rest
