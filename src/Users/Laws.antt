-- ===== src/Users/Laws.antt =====
-- Closing an account or changing its password ends its sessions.
use elysia_panel.Prelude.{
  String, true, ◌≡◌, refl, List, [], ◌∷◌, ◌==◌, update_rows, All, Bool-cases, inl, inr, Option,
  Bool, same,
}
use elysia_panel.World.Schema.{RowId, RefreshToken}
use elysia_panel.World.State.{World, Env}

-- No session of the user is left.
abbrev pub HasNoSession : RowId → World → Type 0
HasNoSession id w = All (λ t. (t.user_id == id) ≡ true → t.revoked ≡ true) w.refresh_tokens

abbrev pub revoke_row : RefreshToken → RefreshToken
revoke_row t = record t { revoked = true }

pub All-revoked :
    (id : RowId) (ts : List RefreshToken)
    → All
        (λ t. (t.user_id == id) ≡ true → t.revoked ≡ true)
        (update_rows (λ t. t.user_id == id) revoke_row ts)
All-revoked id [] = tt
All-revoked id (t ∷ ts) = elim (Bool-cases (t.user_id == id)) [
  | inl its ↦ rw its ((λ _. refl), All-revoked id ts)
  | inr other ↦ rw other ((λ h. absurd (cc)), All-revoked id ts)
]

module _ (env : Env) (id : RowId) (reason : String) (actor_id : RowId) (plain : String)
    (ip : Option String) (w : World) where
  abbrev is_token : RefreshToken → Bool
  is_token t = same t.token_hash (env.sha256 plain)
