-- ===== src/Prelude/Decimal.antt =====
-- Decimal numerals as lists of character codes, and text as such a list.
use Prim.Native.Nat.{ℕ, zero, suc, ◌+◌, ◌-◌, ◌*◌, ◌/◌, ◌%◌, ◌≤◌}
use Prim.Native.Char.{code}
use Prim.Native.String.{String}
use mathlib.Core.Path.{◌≡◌, ap, ◌∙◌}
use mathlib.Core.Bool.{Bool, ◌&&◌}
use mathlib.Core.Logic.{inl, inr}
use mathlib.Core.List.{List, [], ◌∷◌}
use native.Mathlib.Omega.{arith}
use elysia_panel.Prelude.Tests.{leb, ltb, if◌then◌else◌, Bool-cases}

-- The characters of a text.
abbrev pub codes : String → List ℕ
codes String.[] = []
codes (String.◌∷◌ c s) = code c ∷ codes s

abbrev pub is_digit : ℕ → Bool
is_digit c = leb b'0' c && leb c b'9'

-- The digits of a number in front of a text, with fuel.
pub decimal_from : ℕ → ℕ → List ℕ → List ℕ
decimal_from zero n rest = (b'0' + n % 10) ∷ rest
decimal_from (suc fuel) n rest =
    let more = decimal_from fuel (n / 10) ((b'0' + n % 10) ∷ rest) in
    if ltb n 10 then (b'0' + n) ∷ rest else more

-- `n.toString()`: a number has no more digits than its value.
unfoldable pub decimal : ℕ → List ℕ
unfolding decimal_from
decimal n = decimal_from n n []

-- The value of the digits that a text consists of, added to those read before.
abbrev pub digits_value : ℕ → List ℕ → ℕ
digits_value acc [] = acc
digits_value acc (c ∷ cs) = digits_value (acc * 10 + (c - b'0')) cs

-- Reading the digits of a number, then the rest, is reading the rest with that number read.
pub digits_value-decimal_from :
    (fuel n : ℕ) (rest : List ℕ)
    → n ≤ fuel
    → digits_value 0 (decimal_from fuel n rest) ≡ digits_value n rest
unfolding decimal_from
digits_value-decimal_from zero n rest h = ap (λ k. digits_value k rest) (omega arith)
digits_value-decimal_from (suc fuel) n rest h = elim (Bool-cases (ltb n 10)) [
  | inl small ↦ rw small (ap (λ k. digits_value k rest) (omega arith))
  | inr big ↦ rw big (
      digits_value-decimal_from fuel (n / 10) ((b'0' + n % 10) ∷ rest) (ground arith)
      ∙ ap (λ k. digits_value k rest) (omega arith))
]
