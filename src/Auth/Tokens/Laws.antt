-- ===== src/Auth/Tokens/Laws.antt =====
-- A refresh token is good for one refresh, and none after a logout.
use elysia_panel.Prelude.{
  ◌+◌, ◌≤◌, String, Bool, true, false, ◌≡◌, refl, ◌∙◌, inl, inr, Option, none, some, [], ◌∷◌, ◌++◌,
  ◌==◌, ◌||◌, same, ltb, find, any, update_rows, find-update_rows, find-append_some, find_of_found,
  find-update_kept, ap, arith, Option-cases,
}
use elysia_panel.World.Schema.{RefreshToken}
use elysia_panel.World.State.{World, Env}
use elysia_panel.World.Action.{Exception, ok, err, unauthorized}
use elysia_panel.Auth.Tokens.{TokenPair, refresh_ttl_ms, issue_token_pair, refresh, logout}

abbrev refused : Exception
refused = unauthorized "Refresh token invalide ou expiré"

abbrev pub revoke : RefreshToken → RefreshToken
revoke t = record t { revoked = true }

module _ (env : Env) (plain : String) (w : World) where
  abbrev has_hash : RefreshToken → Bool
  has_hash t = same t.token_hash (env.sha256 plain)

  -- A token that is unknown, revoked or past its expiry is refused, and nothing is written.
  pub refresh-refused :
      (ip : Option String)
      → ((t : RefreshToken)
          → find has_hash w.refresh_tokens ≡ some t
          → (t.revoked || ltb t.expires_at w.now) ≡ true)
      → refresh env plain ip w ≡ (err refused, w)
  unfolding refresh
  refresh-refused ip h = elim (Option-cases (find has_hash w.refresh_tokens)) [
    | inl missing ↦ ground arith
    | inr (t, e) ↦ ground (arith, h t e)
  ]

  -- What a refresh that succeeds has seen and written.
  refresh-ok :
      (ip : Option String) (pair : TokenPair)
      → (refresh env plain ip w).0 ≡ ok pair
      → (t new : RefreshToken) × (find has_hash w.refresh_tokens ≡ some t)
        × ((t.revoked || ltb t.expires_at w.now) ≡ false)
        × (new.user_id ≡ t.user_id)
        × ((refresh env plain ip w).1.refresh_tokens
            ≡ update_rows (λ s. s.id == t.id) revoke w.refresh_tokens ++ new ∷ [])
  unfolding refresh issue_token_pair
  refresh-ok ip pair h = elim (Option-cases (find has_hash w.refresh_tokens)) [
    | inl missing ↦ absurd (ground arith)
    | inr (t, e) ↦ (
      t,
      record {
        id = env.uuid (w.drawn + 1);
        user_id = t.user_id;
        token_hash = env.sha256 (env.random_hex 48 w.drawn);
        user_agent = none;
        ip = ip;
        revoked = false;
        expires_at = w.now + refresh_ttl_ms env;
      },
      e,
      ground arith,
      refl,
      ground arith,
    )
  ]

  -- A known token that is live and not revoked yields a new pair for its user, unless the hash of
  -- the new token is taken.
  pub refresh_live :
      (ip : Option String) (t : RefreshToken)
      → find has_hash w.refresh_tokens ≡ some t
      → t.revoked ≡ false
      → w.now ≤ t.expires_at
      → any
          (λ s. same s.token_hash (env.sha256 (env.random_hex 48 w.drawn)))
          (update_rows (λ s. s.id == t.id) revoke w.refresh_tokens)
        ≡ false
      → (refresh env plain ip w).0
        ≡ ok (record {
          access_token = env.jwt_sign t.user_id none w.now;
          refresh_token = env.random_hex 48 w.drawn;
        })
  unfolding refresh issue_token_pair
  refresh_live ip t e live fresh unused =
      let (s, found) =
        find_of_found has_hash (λ s. s.id == t.id) w.refresh_tokens t e (ground arith) in
      ground arith

-- After a refresh that succeeded, the same token is refused for as long as the tokens stand.
pub refresh_once :
    (env : Env) (plain : String) (w : World) (ip ip' : Option String) (pair : TokenPair)
    (later : World)
    → (refresh env plain ip w).0 ≡ ok pair
    → later.refresh_tokens ≡ (refresh env plain ip w).1.refresh_tokens
    → refresh env plain ip' later ≡ (err refused, later)
refresh_once env plain w ip ip' pair later h same_tokens =
    let (t, new, e, _, _, rows) = refresh-ok env plain w ip pair h in
    let revoked : find (has_hash env plain w) later.refresh_tokens ≡ some (revoke t) =
      ap (find (has_hash env plain w)) (same_tokens ∙ rows)
      ∙ find-append_some (has_hash env plain w) _ (new ∷ []) (revoke t) (
          ground (
            arith,
            find-update_kept (λ (s : RefreshToken). s.id == t.id) (has_hash env plain w) revoke
                w.refresh_tokens (λ s. refl),
          )) in
    refresh-refused env plain later ip' (λ s found. ground arith)

-- After a logout the token is refused for as long as the tokens stand.
pub logout_refuses :
    (env : Env) (plain : String) (ip : Option String) (w later : World)
    → later.refresh_tokens ≡ (logout env plain w).1.refresh_tokens
    → refresh env plain ip later ≡ (err refused, later)
unfolding logout
logout_refuses env plain ip w later same_tokens = refresh-refused env plain later ip (λ t e.
    ground (
      arith,
      ap (find (has_hash env plain w)) same_tokens,
      find-update_rows (has_hash env plain w) revoke w.refresh_tokens (λ s. refl),
    ))
