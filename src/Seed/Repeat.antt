-- ===== src/Seed/Repeat.antt =====
-- Loops whose body has nothing left to do once it has run for an item: one pass over the items
-- settles all of them, and a second pass changes nothing.
use elysia_panel.Prelude.{◌≡◌, refl, ap, sym, subst, ◌∙◌, List, [], ◌∷◌, Bool, false, All, arith}
use elysia_panel.World.State.{World}
use elysia_panel.World.Action.{Action, ⊤, ok, ◌>>=◌, for_each}
use elysia_panel.Seed.Put.{All-of_every}

pub then_ok :
    {A B : Type 0} (m : Action A) (f : A → Action B) (w : World) (a : A)
    → (m w).0 ≡ ok a
    → (m >>= f) w ≡ f a (m w).1
then_ok m f w a h = ground (arith, h)

-- No two items are at odds.
abbrev pub Distinct : {A : Type 0} → (A → A → Bool) → List A → Type 0
Distinct clash [] = Unit
Distinct clash (x ∷ xs) = All (λ y. clash y x ≡ false) xs × Distinct clash xs

pub Distinct-of_none : {A : Type 0} (xs : List A) → Distinct (λ _ _. false) xs
Distinct-of_none [] = tt
Distinct-of_none (x ∷ xs) = (All-of_every _ xs (λ _. refl), Distinct-of_none xs)

module _ {A : Type 0} (f : A → Action ⊤) (Done : A → World → Type 0) where
  pub for_each-settled :
      ((x : A) (w : World) → Done x w → f x w ≡ (ok tt, w))
      → (xs : List A) (w : World) → All (λ x. Done x w) xs
      → for_each f xs w ≡ (ok tt, w)
  unfolding for_each
  for_each-settled settled [] w h = refl
  for_each-settled settled (x ∷ xs) w h =
      then_ok (f x) (λ _. for_each f xs) w tt (ap (λ p. p.0) (settled x w h.0))
      ∙ ap (λ p. for_each f xs p.1) (settled x w h.0)
      ∙ for_each-settled settled xs w h.1

  module _ (ends : (x : A) (w : World) → (f x w).0 ≡ ok tt) where
    pub for_each_step :
        (x : A) (xs : List A) (w : World) → for_each f (x ∷ xs) w ≡ for_each f xs (f x w).1
    unfolding for_each
    for_each_step x xs w = then_ok (f x) (λ _. for_each f xs) w tt (ends x w)

    pub for_each-ok : (xs : List A) (w : World) → (for_each f xs w).0 ≡ ok tt
    unfolding for_each
    for_each-ok [] w = refl
    for_each-ok (x ∷ xs) w = ap (λ p. p.0) (for_each_step x xs w) ∙ for_each-ok xs (f x w).1

    -- What every round keeps, the loop keeps.
    pub for_each-keeps :
        (P : World → Type 0)
        → ((x : A) (w : World) → P w → P (f x w).1)
        → (xs : List A) (w : World) → P w
        → P (for_each f xs w).1
    unfolding for_each
    for_each-keeps P keep [] w p = p
    for_each-keeps P keep (x ∷ xs) w p =
        subst (λ r. P r.1) (sym (for_each_step x xs w))
          (for_each-keeps P keep xs (f x w).1 (keep x w p))

    module _ (clash : A → A → Bool)
        (stays : (y x : A) (w : World) → clash y x ≡ false → Done x w → Done x (f y w).1) where
      -- Rounds for other items leave an item settled.
      pub for_each-stays :
          (x : A) (ys : List A) (w : World)
          → All (λ y. clash y x ≡ false) ys
          → Done x w
          → Done x (for_each f ys w).1
      unfolding for_each
      for_each-stays x [] w h d = d
      for_each-stays x (y ∷ ys) w h d =
          subst (λ r. Done x r.1) (sym (for_each_step y ys w))
            (for_each-stays x ys (f y w).1 h.1 (stays y x w h.0 d))

      -- After the loop every item is settled.
      pub for_each-Done :
          ((x : A) (w : World) → Done x (f x w).1)
          → (xs : List A) (w : World) → Distinct clash xs
          → All (λ x. Done x (for_each f xs w).1) xs
      unfolding for_each
      for_each-Done done [] w h = tt
      for_each-Done done (x ∷ xs) w h =
          subst (λ r. All (λ y. Done y r.1) (x ∷ xs)) (sym (for_each_step x xs w))
            (for_each-stays x xs (f x w).1 h.0 (done x w), for_each-Done done xs (f x w).1 h.1)
