-- ===== src/Prelude/Slices.antt =====
-- Prefixes, suffixes and parts of native strings, character by character.
use Prim.Native.Char.{Char, code}
use Prim.Native.String.{String}
use mathlib.Core.Path.{◌≡◌, refl, sym, ap, ◌∙◌}
use mathlib.Core.Logic.{inl, inr}
use mathlib.Core.Bool.{Bool, true, false, ◌&&◌, ◌||◌}
use mathlib.Core.Option.{Option, none, some}
use native.Mathlib.Omega.{arith}
use text.Mathlib.TextLemmas.{nil-append, cons-append}
use elysia_panel.Prelude.Tests.{◌==◌, if◌then◌else◌, Bool-cases}
use elysia_panel.Prelude.Text.{concat, same, same_iff, same_refl}

-- `text.startsWith(prefix)`
abbrev pub starts : String → String → Bool
starts String.[] text = true
starts (String.◌∷◌ c p) String.[] = false
starts (String.◌∷◌ c p) (String.◌∷◌ d s) = code c == code d && starts p s

-- `text.slice(n)` where the text has a prefix of that length.
abbrev pub drop_prefix : String → String → String
drop_prefix String.[] text = text
drop_prefix (String.◌∷◌ c p) String.[] = ""
drop_prefix (String.◌∷◌ c p) (String.◌∷◌ d s) = drop_prefix p s

-- `text.endsWith(suffix)`: some tail of the text is the suffix.
abbrev pub ends : (String → Bool) → String → Bool
ends is_suffix String.[] = is_suffix ""
ends is_suffix (String.◌∷◌ c s) = is_suffix (String.◌∷◌ c s) || ends is_suffix s

-- A text ends in what was put behind it.
pub ends-concat : (t p : String) → ends (same t) (concat p t) ≡ true
ends-concat String.[] String.[] = refl
ends-concat (String.◌∷◌ c t) String.[] =
    rw (nil-append (String.◌∷◌ c t)) (ground (arith, same_refl (String.◌∷◌ c t)))
ends-concat t (String.◌∷◌ c p) = rw (cons-append c p t) (ground (arith, ends-concat t p))

-- A text that ends in another is that one behind something.
pub ends_parts : (t s : String) → ends (same t) s ≡ true → (p : String) × (s ≡ concat p t)
ends_parts t String.[] h = ("", sym (nil-append t ∙ (same_iff t "").0 h))
ends_parts t (String.◌∷◌ c s) h = elim (Bool-cases (same t (String.◌∷◌ c s))) [
  | inl whole ↦ ("", sym (nil-append t ∙ (same_iff t (String.◌∷◌ c s)).0 whole))
  | inr longer ↦
      let (p, e) = ends_parts t s (ground arith) in
      (String.◌∷◌ c p, ap (String.◌∷◌ c) e ∙ sym (cons-append c p t))
]

-- `text.includes(c)` for one character.
abbrev pub has_char : Char → String → Bool
has_char c String.[] = false
has_char c (String.◌∷◌ d s) = code d == code c || has_char c s

-- What stands in front of the last occurrence of a character, and what behind it.
unfoldable pub split_last : Char → String → Option (String × String)
split_last c String.[] = none
split_last c (String.◌∷◌ d s) = elim (split_last c s) [
  | some (a, b) ↦ some (String.◌∷◌ d a, b)
  | none ↦ if code d == code c then some ("", s) else none
]

pub split_last-none : (c : Char) (s : String) → has_char c s ≡ false → split_last c s ≡ none
unfolding split_last
split_last-none c String.[] h = refl
split_last-none c (String.◌∷◌ d s) h = ground (arith, split_last-none c s)

-- A text that is put together at a character comes apart there, if the second part has none.
pub split_last-concat :
    (c : Char) (a b : String)
    → has_char c b ≡ false
    → split_last c (concat a (String.◌∷◌ c b)) ≡ some (a, b)
unfolding split_last
split_last-concat c String.[] b h =
    rw (nil-append (String.◌∷◌ c b)) (ground (arith, split_last-none c b h))
split_last-concat c (String.◌∷◌ d a) b h =
    rw (cons-append d a (String.◌∷◌ c b)) (ground (arith, split_last-concat c a b h))

-- `text.split(c)[0]`
abbrev pub first_part : Char → String → String
first_part c String.[] = ""
first_part c (String.◌∷◌ d s) =
    let rest = first_part c s in if code d == code c then "" else String.◌∷◌ d rest

-- `text.split(c).pop()`
abbrev pub last_part : Char → String → String
last_part c s = elim (split_last c s) [ none ↦ s | some (a, b) ↦ b ]
