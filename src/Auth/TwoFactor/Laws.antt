-- ===== src/Auth/TwoFactor/Laws.antt =====
-- What the second step of a login asks for, that a recovery code serves once, and that a new
-- secret replaces an active one.
use mathlib.Core.Option
use elysia_panel.Prelude.{
  String, true, false, ◌≡◌, refl, ap, ◌∙◌, Option, none, some, List, [], ◌∷◌, ◌==◌, same, includes,
  is_blank, find, update_rows, delete_rows, find-update_kept, find-update_rows, arith,
}
use elysia_panel.World.Schema.{RowId, User}
use elysia_panel.World.State.{World, Env}
use elysia_panel.World.Action.{Exception, ok, err, unauthorized}
use elysia_panel.Auth.Tokens.{issue_token_pair}
use elysia_panel.Auth.TwoFactor.{
  LoginResult, requires_two_factor, check_code, open_session, login, generate_two_factor_secret,
  disable_two_factor,
}

abbrev wrong_code : Exception
wrong_code = unauthorized "Code 2FA invalide"

-- A code that was used is no longer among those left.
includes-delete_rows :
    (c : String) (xs : List String) → includes (delete_rows (λ x. same x c) xs) c ≡ false
includes-delete_rows c [] = refl
includes-delete_rows c (x ∷ xs) = ground (arith, includes-delete_rows c xs)

open_session-users :
    (env : Env) (user : User) (ip agent : Option String) (w : World)
    → (open_session env user ip agent w).1.users ≡ w.users
unfolding open_session issue_token_pair
open_session-users env user ip agent w = ground arith

-- A check that a recovery code passes drops the code.
check_code_spends :
    (env : Env) (user : User) (code secret : String) (w : World)
    → user.two_factor_secret ≡ some secret
    → env.totp_verify secret code w.now ≡ false
    → (check_code env user code w).0 ≡ ok tt
    → (check_code env user code w).1.users
      ≡ update_rows
          (λ u. u.id == user.id)
          (λ u. record u {
            two_factor_recovery_codes =
                delete_rows (λ c. same c code) user.two_factor_recovery_codes;
          })
          w.users
unfolding check_code
check_code_spends env user code secret w s totp done = ground arith

module _ (env : Env) (id : RowId) (ip agent : Option String) (user : User) (w : World)
    (found : find (λ u. u.id == id) w.users ≡ some user)
    (enabled : user.two_factor_enabled ≡ true) where
  -- With two-factor authentication, a login without a code opens no session and writes nothing.
  pub login_needs_code :
      (code : Option String)
      → is_blank code ≡ true
      → login env id code ip agent w ≡ (ok requires_two_factor, w)
  unfolding login
  login_needs_code none h = ground arith
  login_needs_code (some code) h = ground arith

  -- A code that is neither the TOTP code of the moment nor a recovery code is refused, and nothing
  -- is written.
  pub login-wrong_code :
      (code secret : String)
      → user.two_factor_secret ≡ some secret
      → same code "" ≡ false
      → env.totp_verify secret code w.now ≡ false
      → includes user.two_factor_recovery_codes code ≡ false
      → login env id (some code) ip agent w ≡ (err wrong_code, w)
  unfolding login check_code
  login-wrong_code code secret s h totp codes = ground arith

  -- What a login by a recovery code leaves of the user.
  login_spends_code :
      (code secret : String) (result : LoginResult)
      → user.two_factor_secret ≡ some secret
      → same code "" ≡ false
      → env.totp_verify secret code w.now ≡ false
      → (login env id (some code) ip agent w).0 ≡ ok result
      → (login env id (some code) ip agent w).1.users
        ≡ update_rows
            (λ u. u.id == user.id)
            (λ u. record u {
              two_factor_recovery_codes =
                  delete_rows (λ c. same c code) user.two_factor_recovery_codes;
            })
            w.users
  unfolding login
  login_spends_code code secret result s h totp done = ground (
    arith,
    open_session-users env user ip agent (check_code env user code w).1,
    check_code_spends env user code secret w s totp,
  )

-- A recovery code that opened a session, where it was no TOTP code, opens no other one as long as
-- the users stand and it is no TOTP code then.
pub recovery_code_once :
    (env : Env) (id : RowId) (ip agent : Option String) (user : User) (code secret : String)
    (w later : World) (result : LoginResult)
    → find (λ u. u.id == id) w.users ≡ some user
    → user.two_factor_enabled ≡ true
    → user.two_factor_secret ≡ some secret
    → same code "" ≡ false
    → env.totp_verify secret code w.now ≡ false
    → (login env id (some code) ip agent w).0 ≡ ok result
    → later.users ≡ (login env id (some code) ip agent w).1.users
    → env.totp_verify secret code later.now ≡ false
    → login env id (some code) ip agent later ≡ (err wrong_code, later)
recovery_code_once env id ip agent user code secret w later result found enabled s h totp done users
      totp' =
    let spent : User → User = λ u. record u {
      two_factor_recovery_codes = delete_rows (λ c. same c code) user.two_factor_recovery_codes;
    } in
    let rows =
      login_spends_code env id ip agent user w found enabled code secret result s h totp done in
    let found' : find (λ u. u.id == id) later.users ≡ some (spent user) =
      ap (find (λ u. u.id == id)) (users ∙ rows)
      ∙ ground (
        arith,
        find-update_kept (λ (u : User). u.id == user.id) (λ (u : User). u.id == id) spent w.users
            (λ u. refl),
      ) in
    login-wrong_code env id ip agent (spent user) later found' enabled code secret s h totp'
      (includes-delete_rows code user.two_factor_recovery_codes)

-- Asking for a new secret while two-factor authentication is active replaces the active one: as
-- long as the users stand, a code of the new secret, if it is not empty, switches it off.
pub generate_replaces_active :
    (env : Env) (id : RowId) (user : User) (code : String) (w later : World)
    → find (λ u. u.id == id) w.users ≡ some user
    → user.two_factor_enabled ≡ true
    → later.users ≡ (generate_two_factor_secret env id w).1.users
    → same (env.totp_secret w.drawn) "" ≡ false
    → env.totp_verify (env.totp_secret w.drawn) code later.now ≡ true
    → let (result, w') = disable_two_factor env id code later in
      (result ≡ ok tt)
      × (Option.map (λ u. u.two_factor_enabled) (find (λ u. u.id == id) w'.users) ≡ some false)
unfolding generate_two_factor_secret disable_two_factor
generate_replaces_active env id user code w later found enabled users blank valid =
    let renewed : User = record user { two_factor_secret = some (env.totp_secret w.drawn) } in
    let found' : find (λ u. u.id == id) later.users ≡ some renewed = ground (
      arith,
      ap (find (λ u. u.id == id)) users,
      find-update_rows (λ (u : User). u.id == id)
          (λ u. record u { two_factor_secret = some (env.totp_secret w.drawn) }) w.users,
    ) in
    (
      ground arith,
      ground (
        arith,
        find-update_rows (λ (u : User). u.id == id)
            (λ u. record u {
              two_factor_enabled = false;
              two_factor_secret = none;
              two_factor_recovery_codes = [];
            })
            later.users,
      ),
    )
