-- ===== src/Prelude/Each.antt =====
-- What holds of every row, and how many pass a test, when rows go.
use Prim.Native.Nat.{◌≤◌}
use mathlib.Core.Path.{◌≡◌, refl}
use mathlib.Core.Logic.{inl, inr}
use mathlib.Core.Bool.{Bool, false}
use mathlib.Core.List.{List, [], ◌∷◌}
use native.Mathlib.Omega.{arith}
use elysia_panel.Prelude.Tests.{Bool-cases}
use elysia_panel.Prelude.Rows.{count_rows, delete_rows, All}

pub count-delete_rows :
    {A : Type 0} (q p : A → Bool) (xs : List A) → count_rows q (delete_rows p xs) ≤ count_rows q xs
count-delete_rows q p [] = omega arith
count-delete_rows q p (x ∷ xs) = ground (arith, count-delete_rows q p xs)

pub count_rows-none :
    {A : Type 0} (q : A → Bool) (xs : List A) → All (λ x. q x ≡ false) xs → count_rows q xs ≡ 0
count_rows-none q [] h = refl
count_rows-none q (x ∷ xs) h = ground (arith, h.0, count_rows-none q xs h.1)

pub All-delete_rows_to :
    {A : Type 0} (P Q : A → Type 0) (p : A → Bool) (xs : List A)
    → ((x : A) → p x ≡ false → P x → Q x)
    → All P xs
    → All Q (delete_rows p xs)
All-delete_rows_to P Q p [] h a = tt
All-delete_rows_to P Q p (x ∷ xs) h a = elim (Bool-cases (p x)) [
  | inl e ↦ rw e (All-delete_rows_to P Q p xs h a.1)
  | inr e ↦ rw e (h x e a.0, All-delete_rows_to P Q p xs h a.1)
]

pub All-weaken :
    {A : Type 0} (P Q : A → Type 0) (xs : List A) → ((x : A) → P x → Q x) → All P xs → All Q xs
All-weaken P Q [] h a = tt
All-weaken P Q (x ∷ xs) h a = (h x a.0, All-weaken P Q xs h a.1)
