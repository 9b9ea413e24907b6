-- ===== src/Prelude/Rows.antt =====
-- Lists of rows, read and written by Boolean tests, as the database client's `where` filters are.
use Prim.Native.Nat.{ℕ, suc, ◌+◌}
use mathlib.Core.Path.{◌≡◌, refl, subst}
use mathlib.Core.Logic.{inl, inr}
use mathlib.Core.Bool.{Bool, true, false, ◌&&◌, ◌||◌}
use mathlib.Core.List.{List, [], ◌∷◌, ◌++◌}
use mathlib.Core.Option
use mathlib.Core.Option.{Option, none, some}
use native.Mathlib.Omega.{arith}
use elysia_panel.Prelude.Tests.{if◌then◌else◌, Bool-cases}

module _ {ℓ} {A : Type ℓ} where
  abbrev pub length : List A → ℕ
  length [] = 0
  length (x ∷ xs) = suc (length xs)

  -- The first row that passes.
  abbrev pub find : (A → Bool) → List A → Option A
  find p [] = none
  find p (x ∷ xs) = if p x then some x else find p xs

  -- The rows that pass, in order.
  abbrev pub select : (A → Bool) → List A → List A
  select p [] = []
  select p (x ∷ xs) = let rest = select p xs in if p x then x ∷ rest else rest

  -- Rewrites every row that passes.
  abbrev pub update_rows : (A → Bool) → (A → A) → List A → List A
  update_rows p f [] = []
  update_rows p f (x ∷ xs) = (if p x then f x else x) ∷ update_rows p f xs

  -- Drops every row that passes.
  abbrev pub delete_rows : (A → Bool) → List A → List A
  delete_rows p [] = []
  delete_rows p (x ∷ xs) = let rest = delete_rows p xs in if p x then rest else x ∷ rest

  abbrev pub count_rows : (A → Bool) → List A → ℕ
  count_rows p [] = 0
  count_rows p (x ∷ xs) = (if p x then 1 else 0) + count_rows p xs

  abbrev pub any : (A → Bool) → List A → Bool
  any p [] = false
  any p (x ∷ xs) = p x || any p xs

  abbrev pub all : (A → Bool) → List A → Bool
  all p [] = true
  all p (x ∷ xs) = p x && all p xs

  -- Every row has the property.
  abbrev pub All {κ} : (A → Type κ) → List A → Type κ
  All P [] = Unit
  All P (x ∷ xs) = P x × All P xs

  pub length-append : (xs ys : List A) → length (xs ++ ys) ≡ length xs + length ys
  length-append [] ys = omega arith
  length-append (x ∷ xs) ys = omega (arith, length-append xs ys)

  pub find_passes : (p : A → Bool) (xs : List A) (x : A) → find p xs ≡ some x → p x ≡ true
  find_passes p [] x h = cc
  find_passes p (y ∷ xs) x h = ground (arith, find_passes p xs x)

  -- A row that one search finds makes another search for it succeed.
  pub find_of_found :
      (p q : A → Bool) (xs : List A) (x : A)
      → find p xs ≡ some x
      → q x ≡ true
      → (y : A) × (find q xs ≡ some y)
  find_of_found p q [] x h k = absurd (cc)
  find_of_found p q (z ∷ xs) x h k = elim (Bool-cases (q z)) [
    | inl here ↦ (z, ground arith)
    | inr other ↦ elim (Bool-cases (p z)) [
      | inl same_row ↦ absurd (ground arith)
      | inr later ↦ let (y, e) = find_of_found p q xs x (ground arith) k in (y, ground arith)
    ]
  ]

  pub any_of_found : (p : A → Bool) (xs : List A) (x : A) → find p xs ≡ some x → any p xs ≡ true
  any_of_found p [] x h = absurd (cc)
  any_of_found p (y ∷ xs) x h = ground (arith, any_of_found p xs x)

  pub find-any : (p : A → Bool) (xs : List A) → find p xs ≡ none → any p xs ≡ false
  find-any p [] h = refl
  find-any p (y ∷ xs) h = ground (arith, find-any p xs)

  pub find-none_of_any : (p : A → Bool) (xs : List A) → any p xs ≡ false → find p xs ≡ none
  find-none_of_any p [] h = refl
  find-none_of_any p (y ∷ xs) h = ground (arith, find-none_of_any p xs)

  pub find-append_none :
      (p : A → Bool) (xs ys : List A) → find p xs ≡ none → find p (xs ++ ys) ≡ find p ys
  find-append_none p [] ys h = refl
  find-append_none p (y ∷ xs) ys h = ground (arith, find-append_none p xs ys)

  pub find-append_some :
      (p : A → Bool) (xs ys : List A) (x : A) → find p xs ≡ some x → find p (xs ++ ys) ≡ some x
  find-append_some p [] ys x h = cc
  find-append_some p (y ∷ xs) ys x h = ground (arith, find-append_some p xs ys x)

  -- A rewrite that keeps the test's answer is seen by the search.
  pub find-update_rows :
      (p : A → Bool) (f : A → A) (xs : List A)
      → ((x : A) → p (f x) ≡ p x)
      → find p (update_rows p f xs) ≡ Option.map f (find p xs)
  find-update_rows p f [] h = refl
  find-update_rows p f (x ∷ xs) h = elim (Bool-cases (p x)) [
    | inl e ↦ rw (e, h x, e) refl
    | inr e ↦ rw (e, e) (find-update_rows p f xs h)
  ]

  -- The same under a test of its own, which the rewrite keeps.
  pub find-update_kept :
      (p q : A → Bool) (f : A → A) (xs : List A)
      → ((x : A) → q (f x) ≡ q x)
      → find q (update_rows p f xs) ≡ Option.map (λ x. if p x then f x else x) (find q xs)
  find-update_kept p q f [] h = refl
  find-update_kept p q f (x ∷ xs) h = ground (arith, h x, find-update_kept p q f xs h)

  -- A search for other rows is blind to a rewrite that keeps its answers.
  pub find-update_other :
      (p q : A → Bool) (f : A → A) (xs : List A)
      → ((x : A) → p x ≡ true → (q x ≡ false) × (q (f x) ≡ false))
      → find q (update_rows p f xs) ≡ find q xs
  find-update_other p q f [] h = refl
  find-update_other p q f (x ∷ xs) h = ground (arith, h x, find-update_other p q f xs h)

  -- With no row to rewrite, nothing changes.
  pub update_rows-none :
      (p : A → Bool) (f : A → A) (xs : List A) → find p xs ≡ none → update_rows p f xs ≡ xs
  update_rows-none p f [] h = refl
  update_rows-none p f (x ∷ xs) h = ground (arith, update_rows-none p f xs)

  pub find-delete_rows : (p : A → Bool) (xs : List A) → find p (delete_rows p xs) ≡ none
  find-delete_rows p [] = refl
  find-delete_rows p (x ∷ xs) = ground (arith, find-delete_rows p xs)

  pub All-update_rows {κ} :
      (P : A → Type κ) (p : A → Bool) (f : A → A) (xs : List A)
      → ((x : A) → p x ≡ true → P x → P (f x))
      → All P xs
      → All P (update_rows p f xs)
  All-update_rows P p f [] h a = tt
  All-update_rows P p f (x ∷ xs) h a = elim (Bool-cases (p x)) [
    | inl e ↦ rw e (h x e a.0, All-update_rows P p f xs h a.1)
    | inr e ↦ rw e (a.0, All-update_rows P p f xs h a.1)
  ]

  -- The same from one property to another, over the rows that pass and those that do not.
  pub All-update_rows_to {κ μ} :
      (P : A → Type κ) (Q : A → Type μ) (p : A → Bool) (f : A → A) (xs : List A)
      → ((x : A) → p x ≡ true → P x → Q (f x))
      → ((x : A) → p x ≡ false → P x → Q x)
      → All P xs
      → All Q (update_rows p f xs)
  All-update_rows_to P Q p f [] h k a = tt
  All-update_rows_to P Q p f (x ∷ xs) h k a = elim (Bool-cases (p x)) [
    | inl e ↦ rw e (h x e a.0, All-update_rows_to P Q p f xs h k a.1)
    | inr e ↦ rw e (k x e a.0, All-update_rows_to P Q p f xs h k a.1)
  ]

  pub delete_rows-none : (p : A → Bool) (xs : List A) → find p xs ≡ none → delete_rows p xs ≡ xs
  delete_rows-none p [] h = refl
  delete_rows-none p (x ∷ xs) h = ground (arith, delete_rows-none p xs)

  pub All-delete_rows {κ} :
      (P : A → Type κ) (p : A → Bool) (xs : List A) → All P xs → All P (delete_rows p xs)
  All-delete_rows P p [] a = tt
  All-delete_rows P p (x ∷ xs) a = elim (Bool-cases (p x)) [
    | inl e ↦ rw e (All-delete_rows P p xs a.1)
    | inr e ↦ rw e (a.0, All-delete_rows P p xs a.1)
  ]

  pub All-append {κ} : (P : A → Type κ) (xs ys : List A) → All P xs → All P ys → All P (xs ++ ys)
  All-append P [] ys a b = b
  All-append P (x ∷ xs) ys a b = (a.0, All-append P xs ys a.1 b)

  pub All-select {κ} :
      (P : A → Type κ) (p : A → Bool) (xs : List A) → All P xs → All P (select p xs)
  All-select P p [] a = tt
  All-select P p (x ∷ xs) a = elim (Bool-cases (p x)) [
    | inl e ↦ rw e (a.0, All-select P p xs a.1)
    | inr e ↦ rw e (All-select P p xs a.1)
  ]

  pub All-find {κ} :
      (P : A → Type κ) (p : A → Bool) (xs : List A) (x : A) → All P xs → find p xs ≡ some x → P x
  All-find P p [] x a h = cc
  All-find P p (y ∷ xs) x a h = elim (Bool-cases (p y)) [
    | inl e ↦ subst P (ground arith) a.0
    | inr e ↦ All-find P p xs x a.1 (ground arith)
  ]
