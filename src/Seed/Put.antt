-- ===== src/Seed/Put.antt =====
-- An upsert on the rows of a table: what is found after it, and what all rows have.
use elysia_panel.Prelude.{
  Bool, true, false, ◌≡◌, refl, none, some, List, [], ◌∷◌, ◌++◌, find, update_rows, All, All-append,
  All-update_rows_to, arith, Bool-cases, Option-cases, inl, inr, find-update_kept, find-append_some,
  find-append_none, if◌then◌else◌,
}

module _ {A : Type 0} where
  pub update_rows-same :
      (p : A → Bool) (f : A → A) (xs : List A)
      → All (λ x. p x ≡ true → f x ≡ x) xs
      → update_rows p f xs ≡ xs
  update_rows-same p f [] h = refl
  update_rows-same p f (x ∷ xs) h = elim (Bool-cases (p x)) [
    | inl e ↦ rw (e, h.0 e, update_rows-same p f xs h.1) refl
    | inr e ↦ rw (e, update_rows-same p f xs h.1) refl
  ]

  pub All-of_every : (P : A → Type 0) (xs : List A) → ((x : A) → P x) → All P xs
  All-of_every P [] h = tt
  All-of_every P (x ∷ xs) h = (h x, All-of_every P xs h)

  All-of_none :
      (P : A → Type 0) (p : A → Bool) (xs : List A)
      → ((x : A) → p x ≡ false → P x)
      → find p xs ≡ none
      → All P xs
  All-of_none P p [] h e = tt
  All-of_none P p (x ∷ xs) h e = (h x (ground (arith, e)), All-of_none P p xs h (ground (arith, e)))

  -- The rows after an upsert that would create `x`.
  unfoldable pub put : (A → Bool) → (A → A) → A → List A → List A
  put p f x xs = elim (find p xs) [ none ↦ xs ++ x ∷ [] | some y ↦ update_rows p f xs ]

  module _ (p : A → Bool) (f : A → A) (x : A) (xs : List A) where
    put-none : find p xs ≡ none → put p f x xs ≡ xs ++ x ∷ []
    unfolding put
    put-none e = ground (arith, e)

    put-some : (y : A) → find p xs ≡ some y → put p f x xs ≡ update_rows p f xs
    unfolding put
    put-some y e = ground (arith, e)

    pub put-found :
        p x ≡ true → ((y : A) → p (f y) ≡ p y) → (y : A) × (find p (put p f x xs) ≡ some y)
    put-found h k = elim (Option-cases (find p xs)) [
      | inl e ↦ (x, rw (put-none e, find-append_none p xs (x ∷ []) e, h) refl)
      | inr (y, e) ↦
          (if p y then f y else y, rw (put-some y e, find-update_kept p p f xs k, e) refl)
    ]

    -- What another search finds is still found.
    pub put-stays :
        (q : A → Bool) (y : A)
        → ((z : A) → q (f z) ≡ q z)
        → find q xs ≡ some y
        → (z : A) × (find q (put p f x xs) ≡ some z)
    put-stays q y k e' = elim (Option-cases (find p xs)) [
      | inl e ↦ (y, rw (put-none e, find-append_some q xs (x ∷ []) y e') refl)
      | inr (z, e) ↦
          (if p y then f y else y, rw (put-some z e, find-update_kept p q f xs k, e') refl)
    ]

    pub put-All :
        (P : A → Type 0)
        → P x
        → ((y : A) → p y ≡ true → P (f y))
        → ((y : A) → p y ≡ false → P y)
        → All P (put p f x xs)
    put-All P h k m = elim (Option-cases (find p xs)) [
      | inl e ↦ rw (put-none e) (All-append P xs (x ∷ []) (All-of_none P p xs m e) (h, tt))
      | inr (y, e) ↦ rw (put-some y e) (
          All-update_rows_to (λ _. Unit {0}) P p f xs (λ z e' _. k z e') (λ z e' _. m z e')
            (All-of_every (λ _. Unit {0}) xs (λ _. tt)))
    ]

    pub put-All_kept :
        (P : A → Type 0)
        → P x
        → ((y : A) → p y ≡ true → P y → P (f y))
        → All P xs
        → All P (put p f x xs)
    put-All_kept P h k a = elim (Option-cases (find p xs)) [
      | inl e ↦ rw (put-none e) (All-append P xs (x ∷ []) a (h, tt))
      | inr (y, e) ↦ rw (put-some y e) (All-update_rows_to P P p f xs k (λ z e' b. b) a)
    ]
