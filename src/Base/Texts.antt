-- ===== src/Base/Texts.antt =====
-- A text with a prefix that is not empty.
use Prim.Native.Nat.{◌<◌}
use Prim.Native.String.{String, len, ◌++◌ as ◌<>◌}
use mathlib.Core.Path.{◌≡◌, ap}
use mathlib.Core.Logic.{◌≢◌}
use native.Mathlib.Omega.{arith}
use text.Mathlib.TextPositions.{len-append}

pub prefix_ne_empty : (p name : String) → 0 < len p → p <> name ≢ ""
prefix_ne_empty p name h e =
    let no_length : len (p <> name) ≡ 0 = ap len e in absurd (omega (arith, len-append p name))
