-- ===== src/Gateway/Keys.antt =====
-- The entries of the maps of streams: what cancelling and forgetting a key leaves.
use elysia_panel.Prelude.{
  ℕ, ◌≤◌, Bool, true, false, ◌≡◌, refl, sym, ◌∙◌, subst, Option, none, some, List, [], ◌∷◌, ◌==◌,
  delete_rows, count_rows, All, All-delete_rows, arith, Bool-cases, inl, inr,
}
use elysia_panel.Prelude.Each.{count-delete_rows, All-delete_rows_to, All-weaken}
use elysia_panel.Gateway.{
  StreamKey, same_key, Stream, registered, cancel, cancel_key, forget, is_of_socket,
}

pub same_key_joined :
    (a b c : StreamKey) → same_key a b ≡ true → same_key a c ≡ true → same_key b c ≡ true
same_key_joined a b c h k = ground arith

pub same_key_apart :
    (a b c : StreamKey) → same_key a b ≡ true → same_key b c ≡ false → same_key a c ≡ false
same_key_apart a b c h k = ground arith

pub registered_same :
    (a b : StreamKey) (r : List (StreamKey × ℕ))
    → same_key a b ≡ true
    → registered a r ≡ registered b r
registered_same a b [] h = refl
registered_same a b ((k, id) ∷ r) h = ground (arith, registered_same a b r h)

pub registered-forget :
    (a key : StreamKey) (r : List (StreamKey × ℕ))
    → same_key a key ≡ false
    → registered a (forget key r) ≡ registered a r
registered-forget a key [] h = refl
registered-forget a key ((k, id) ∷ r) h = ground (arith, registered-forget a key r h)

pub registered_elsewhere :
    (a : StreamKey) (socket : ℕ) (r : List (StreamKey × ℕ))
    → (a.socket == socket) ≡ false
    → registered a (delete_rows (λ e. e.0.socket == socket) r) ≡ registered a r
registered_elsewhere a socket [] h = refl
registered_elsewhere a socket ((k, id) ∷ r) h = ground (arith, registered_elsewhere a socket r h)

-- An entry of a socket is one that its disconnection cancels.
pub registered-is_of_socket :
    (s : Stream) (socket : ℕ) (r : List (StreamKey × ℕ))
    → registered s.key r ≡ some s.id
    → (s.key.socket == socket) ≡ true
    → is_of_socket socket r s ≡ true
registered-is_of_socket s socket [] h k = absurd (cc)
registered-is_of_socket s socket ((key, id) ∷ r) h k =
    ground (arith, registered-is_of_socket s socket r)

-- What a cancellation leaves is under other keys, and as well held once the key is forgotten.
abbrev pub IsKept : StreamKey → List (StreamKey × ℕ) → Stream → Type 0
IsKept key r s = (same_key s.key key ≡ false) × (registered s.key (forget key r) ≡ some s.id)

pub kept :
    (key : StreamKey) (r : List (StreamKey × ℕ)) (s : Stream)
    → (registered key r ≡ some s.id → ⊥)
    → registered s.key r ≡ some s.id
    → IsKept key r s
kept key r s other h = elim (Bool-cases (same_key s.key key)) [
  | inl e ↦ absurd (other (sym (registered_same s.key key r e) ∙ h))
  | inr e ↦ (e, registered-forget s.key key r e ∙ h)
]

-- The streams after `cancel_key`, by what the map holds.
abbrev pub after_cancel : Option ℕ → List Stream → List Stream
after_cancel none streams = streams
after_cancel (some id) streams = cancel id streams

pub cancel_key-after_cancel :
    (key : StreamKey) (r : List (StreamKey × ℕ)) (streams : List Stream)
    → cancel_key key r streams ≡ after_cancel (registered key r) streams
cancel_key-after_cancel key r streams = ground arith

pub after_cancel-IsKept :
    (key : StreamKey) (r : List (StreamKey × ℕ)) (found : Option ℕ) (streams : List Stream)
    → registered key r ≡ found
    → All (λ s. registered s.key r ≡ some s.id) streams
    → All (IsKept key r) (after_cancel found streams)
after_cancel-IsKept key r none streams e h =
    All-weaken _ (IsKept key r) streams (λ s k. kept key r s (λ f. absurd (cc)) k) h
after_cancel-IsKept key r (some id) streams e h =
    All-delete_rows_to _ (IsKept key r) (λ s. s.id == id) streams
      (λ s o k. kept key r s (λ f. absurd (ground arith)) k) h

pub cancel_key-IsKept :
    (key : StreamKey) (r : List (StreamKey × ℕ)) (streams : List Stream)
    → All (λ s. registered s.key r ≡ some s.id) streams
    → All (IsKept key r) (cancel_key key r streams)
cancel_key-IsKept key r streams h =
    subst (All (IsKept key r)) (sym (cancel_key-after_cancel key r streams))
      (after_cancel-IsKept key r (registered key r) streams refl h)

pub same_key_refl : (a : StreamKey) → same_key a a ≡ true
same_key_refl a = ground arith

pub same_key_flip : (a b : StreamKey) → same_key a b ≡ false → same_key b a ≡ false
same_key_flip a b h = ground arith

pub All-cancel_key :
    (P : Stream → Type 0) (key : StreamKey) (r : List (StreamKey × ℕ)) (streams : List Stream)
    → All P streams
    → All P (cancel_key key r streams)
All-cancel_key P key r streams h =
    subst (All P) (sym (cancel_key-after_cancel key r streams)) (go (registered key r))
  where
    go : (found : Option ℕ) → All P (after_cancel found streams)
    go none = h
    go (some id) = All-delete_rows P (λ s. s.id == id) streams h

pub count-cancel_key :
    (q : Stream → Bool) (key : StreamKey) (r : List (StreamKey × ℕ)) (streams : List Stream)
    → count_rows q (cancel_key key r streams) ≤ count_rows q streams
count-cancel_key q key r streams =
    subst (λ l. count_rows q l ≤ count_rows q streams) (sym (cancel_key-after_cancel key r streams))
      (go (registered key r))
  where
    go : (found : Option ℕ) → count_rows q (after_cancel found streams) ≤ count_rows q streams
    go none = omega arith
    go (some id) = count-delete_rows q (λ s. s.id == id) streams
