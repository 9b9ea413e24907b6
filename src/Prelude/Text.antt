-- ===== src/Prelude/Text.antt =====
-- Whole texts as native strings, and lists of permission keys.
use Prim.Native.String
use Prim.Native.String.{String}
use mathlib.Core.Path.{◌≡◌, refl}
use mathlib.Core.Logic.{◌↔◌}
use mathlib.Core.Bool.{Bool, true, false, ◌||◌}
use mathlib.Core.List.{List, [], ◌∷◌}
use mathlib.Core.Option.{Option, none, some}
use text.Mathlib.Text.{◌==◌}
use text.Mathlib.TextEquality.{eq_iff}

-- `===` on strings.
abbrev pub same : String → String → Bool
same s t = s == t

pub same_iff : (s t : String) → (same s t ≡ true) ↔ (s ≡ t)
same_iff s t = eq_iff s t

pub same_refl : (s : String) → same s s ≡ true
same_refl s = (eq_iff s s).1 refl

-- `xs.includes(s)`
abbrev pub includes : List String → String → Bool
includes [] s = false
includes (x ∷ xs) s = same x s || includes xs s

-- Whether an optional text is absent or empty, as JavaScript's `!s` tests.
abbrev pub is_blank : Option String → Bool
is_blank none = true
is_blank (some s) = same s ""

-- Concatenation, as template strings make it.
abbrev pub concat : String → String → String
concat s t = String.◌++◌ s t
