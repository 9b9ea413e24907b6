-- ===== src/Auth/TwoFactor.antt =====
-- Two-factor authentication of AuthService: `generateTwoFactorSecret`, `enableTwoFactor`,
-- `disableTwoFactor`, and the second step of `login`.
pub mod Laws
use elysia_panel.Prelude.{
  ℕ, zero, suc, String, Bool, true, false, Option, none, some, List, [], ◌∷◌, not, ◌&&◌, ◌||◌, ◌==◌,
  same, includes, is_blank, delete_rows, if◌then◌else◌,
}
use elysia_panel.World.Schema.{RowId, User}
use elysia_panel.World.State.{World, Env, users_t}
use elysia_panel.World.Action.{
  Action, ⊤, Result, ok, err, unauthorized, internal, ◌>>=◌, ◌>>◌, pure, gets, throw_if, or_throw,
  find_or_throw, update_row, draw, log, entry,
}
use elysia_panel.Auth.Tokens.{TokenPair, issue_token_pair}

-- What `login` answers.
pub data LoginResult : Type 0 where
  requires_two_factor : LoginResult
  logged_in : TokenPair → LoginResult

module _ (env : Env) where
  -- `verifyTotp(user.twoFactorSecret!, code)`: the library throws on a missing secret.
  unfoldable pub verify_totp : Option String → String → Action Bool
  verify_totp none code w = (err (internal "secret"), w)
  verify_totp (some secret) code w = (ok (env.totp_verify secret code w.now), w)

  -- Drops a recovery code that was used: `filter((c) => c !== totpCode)`.
  use_recovery_code : Bool → User → String → Action ⊤
  use_recovery_code false user code w = (ok tt, w)
  use_recovery_code true user code w =
      (do
        update_row users_t (λ u. u.id == user.id)
            (λ u. record u {
              two_factor_recovery_codes =
                  delete_rows (λ c. same c code) user.two_factor_recovery_codes;
            })
        pure tt)
        w

  -- The check of a code that was given, with a recovery code in place of a TOTP code.
  unfoldable pub check_code : User → String → Action ⊤
  unfolding verify_totp use_recovery_code
  check_code user code = do
    valid ← verify_totp user.two_factor_secret code
    let recovery_used : Bool = not valid && includes user.two_factor_recovery_codes code
    throw_if (not valid && not recovery_used) (unauthorized "Code 2FA invalide")
    use_recovery_code recovery_used user code

  -- The end of `login`.
  unfoldable pub open_session : User → Option String → Option String → Action LoginResult
  open_session user ip user_agent = do
    log (record {
      actor_id = some user.id;
      action = "auth.login";
      target_type = none;
      target_id = none;
      severity = none;
      metadata = [];
      ip = ip;
    })
    pair ← issue_token_pair env user.id ip user_agent
    pure (logged_in pair)

  -- `login` of a user with two-factor authentication.
  second_step : User → Option String → Option String → Option String → Action LoginResult
  second_step user none ip user_agent = pure requires_two_factor
  second_step user (some code) ip user_agent =
      if same code ""
      then pure requires_two_factor
      else (check_code user code >> open_session user ip user_agent)

  -- `login`
  unfoldable pub login : RowId → Option String → Option String → Option String → Action LoginResult
  unfolding second_step
  login user_id totp_code ip user_agent = do
    user ← find_or_throw users_t (λ u. u.id == user_id)
    (if user.two_factor_enabled
        then second_step user totp_code ip user_agent
        else open_session user ip user_agent)

  -- `generateTwoFactorSecret`, without the drawing of the QR code.
  unfoldable pub generate_two_factor_secret : RowId → Action String
  generate_two_factor_secret user_id = do
    find_or_throw users_t (λ u. u.id == user_id)
    secret ← draw env.totp_secret
    update_row users_t (λ u. u.id == user_id) (λ u. record u { two_factor_secret = some secret })
    pure secret

  -- `Array.from({ length }, () => crypto.randomBytes(5).toString('hex'))`
  recovery_codes : ℕ → Action (List String)
  recovery_codes zero = pure []
  recovery_codes (suc n) = do
    code ← draw (env.random_hex 5)
    rest ← recovery_codes n
    pure (code ∷ rest)

  -- `enableTwoFactor`
  unfoldable pub enable_two_factor : RowId → String → Action (List String)
  unfolding verify_totp recovery_codes
  enable_two_factor user_id code = do
    user ← find_or_throw users_t (λ u. u.id == user_id)
    throw_if (is_blank user.two_factor_secret)
        (unauthorized "Aucun secret 2FA en attente de confirmation")
    valid ← verify_totp user.two_factor_secret code
    throw_if (not valid) (unauthorized "Code 2FA invalide")
    codes ← recovery_codes 10
    update_row users_t (λ u. u.id == user_id)
        (λ u. record u { two_factor_enabled = true; two_factor_recovery_codes = codes })
    pure codes

  -- `!user.twoFactorSecret || !this.verifyTotp(…)`
  unfoldable pub code_is_wrong : Option String → String → ℕ → Bool
  code_is_wrong none code now = true
  code_is_wrong (some secret) code now = same secret "" || not (env.totp_verify secret code now)

  -- `disableTwoFactor`
  unfoldable pub disable_two_factor : RowId → String → Action ⊤
  unfolding code_is_wrong
  disable_two_factor user_id code = do
    user ← find_or_throw users_t (λ u. u.id == user_id)
    now ← gets (λ w. w.now)
    throw_if (code_is_wrong user.two_factor_secret code now) (unauthorized "Code 2FA invalide")
    update_row users_t (λ u. u.id == user_id)
        (λ u. record u {
          two_factor_enabled = false;
          two_factor_secret = none;
          two_factor_recovery_codes = [];
        })
    pure tt
