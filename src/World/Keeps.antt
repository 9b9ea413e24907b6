-- ===== src/World/Keeps.antt =====
-- Predicates on the state that an action keeps, however it ends, and how the parts of an action
-- keep what the whole keeps.
use elysia_panel.Prelude.{Bool, true, false, Option, none, some, if◌then◌else◌}
use elysia_panel.World.State.{World}
use elysia_panel.World.Action.{Action, Result, ok, err, Exception, ◌>>=◌, catch, or_throw}

-- Wrapped, so that the action is read off the type.
pub record Keeps {A : Type 0} (P : World → Type 0) (m : Action A) : Type 0 where
  pub keep : (w : World) → P w → P (m w).1

module _ (P : World → Type 0) where
  keeps_next :
      {A B : Type 0} (f : A → Action B) (r : Result A) (w : World)
      → P w
      → ((a : A) → Keeps P (f a))
      → P (((λ _. (r, w)) >>= f) w).1
  keeps_next f (ok a) w p k = (k a).keep w p
  keeps_next f (err e) w p k = p

  -- One action, then another.
  pub Keeps-then :
      {A B : Type 0} (m : Action A) (f : A → Action B)
      → Keeps P m
      → ((a : A) → Keeps P (f a))
      → Keeps P (m >>= f)
  Keeps-then m f first rest = record {
    keep = λ w p. keeps_next f (m w).0 (m w).1 (first.keep w p) rest;
  }

  keeps_handled :
      {A : Type 0} (h : Exception → Action A) (r : Result A) (w : World)
      → P w
      → ((e : Exception) → Keeps P (h e))
      → P (catch (λ _. (r, w)) h w).1
  keeps_handled h (ok a) w p k = p
  keeps_handled h (err e) w p k = (k e).keep w p

  -- An action whose exceptions are caught.
  pub Keeps-catch :
      {A : Type 0} (m : Action A) (h : Exception → Action A)
      → Keeps P m
      → ((e : Exception) → Keeps P (h e))
      → Keeps P (catch m h)
  Keeps-catch m h first rest = record {
    keep = λ w p. keeps_handled h (m w).0 (m w).1 (first.keep w p) rest;
  }

  -- An action that leaves the state, such as `or_throw`.
  pub Keeps-read : {A : Type 0} (o : Option A) (e : Exception) → Keeps P (or_throw o e)
  Keeps-read none e = record { keep = λ w p. p }
  Keeps-read (some a) e = record { keep = λ w p. p }

  -- One of two actions.
  pub Keeps-if :
      {A : Type 0} (c : Bool) (m n : Action A)
      → Keeps P m
      → Keeps P n
      → Keeps P (if c then m else n)
  Keeps-if true m n a b = a
  Keeps-if false m n a b = b
