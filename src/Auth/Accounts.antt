-- ===== src/Auth/Accounts.antt =====
-- Accounts in AuthService (backend/src/auth/auth.service.ts): `register`, `validateLocalUser`,
-- `validateLocalUserByUsername`, `changeOwnPassword`, `resolveUserFromAccessToken` and
-- `impersonate`.
pub mod Laws
use mathlib.Core.Option
use elysia_panel.Prelude.{
  ℕ, String, Bool, true, false, Option, none, some, [], ◌&&◌, ◌||◌, not, ◌==◌, same, count_rows,
  any, if◌then◌else◌,
}
use elysia_panel.World.Schema.{RowId, User, Severity}
use elysia_panel.World.State.{World, Env, users_t, roles_t}
use elysia_panel.World.Action.{
  Action, ⊤, unauthorized, conflict, ◌>>=◌, ◌>>◌, pure, gets, throw_if, or_throw, find_unique,
  find_or_throw, create_row, update_row, draw, log, entry,
}
use elysia_panel.Identity.{AuthenticatedUser, permissions_of, authenticated}
use elysia_panel.ApiKeys.{is_active}
use elysia_panel.Users.{new_user, revoke_sessions}
use elysia_panel.Auth.Tokens.{TokenPair, issue_token_pair}

-- `SYSTEM_USER_ID`
abbrev pub system_user_id : RowId
system_user_id = 0

pub record Register : Type 0 where
  pub email : String
  pub username : String
  pub password : String

-- The role of a new account: the first real account is an administrator.
abbrev pub role_name : World → String
role_name w =
    if count_rows (λ u. not (u.id == system_user_id)) w.users == 0 then "admin" else "client"

abbrev pub is_taken : Register → User → Bool
is_taken dto u = same u.email dto.email || same u.username dto.username

module _ (env : Env) where
  -- `!user.passwordHash || !(await bcrypt.compare(…))`, negated.
  abbrev pub knows : Option String → String → Bool
  knows none password = false
  knows (some hash) password = not (same hash "") && env.bcrypt_compare password hash

  unfoldable pub register : Register → Option String → Action TokenPair
  register dto ip = do
    existing ← gets (λ w. any (is_taken dto) w.users)
    throw_if existing (conflict "Email ou nom d'utilisateur déjà utilisé")
    name ← gets role_name
    role ← find_unique roles_t (λ r. same r.name name)
    hash ← draw (λ n. env.bcrypt_hash n dto.password)
    id ← draw env.uuid
    user ←
        create_row users_t (is_taken dto)
          (new_user id dto.email dto.username (some hash) (Option.map (λ r. r.id) role))
    log (record (entry id "auth.register" "User" id) { ip = ip })
    issue_token_pair env id ip none

  -- `validateLocalUser`
  unfoldable pub validate_local_user : String → String → World → Option User
  validate_local_user email password w =
      elim (elysia_panel.Prelude.find (λ u. same u.email email) w.users) [
        | none ↦ none
        | some user ↦ if knows user.password_hash password then some user else none
      ]

  -- `validateLocalUserByUsername`: the user with the permissions of the role.
  unfoldable pub validate_local_user_by_username :
      String → String → World → Option AuthenticatedUser
  validate_local_user_by_username username password w =
      elim (elysia_panel.Prelude.find (λ u. same u.username username) w.users) [
        | none ↦ none
        | some user ↦
            if is_active user.status && knows user.password_hash password
            then some (authenticated user (permissions_of user w) none)
            else none
      ]

  -- `changeOwnPassword`
  unfoldable pub change_own_password : RowId → String → String → Action ⊤
  change_own_password user_id current_password new_password = do
    user ← find_or_throw users_t (λ u. u.id == user_id)
    throw_if (not (knows user.password_hash current_password))
        (unauthorized "Mot de passe actuel incorrect")
    hash ← draw (λ n. env.bcrypt_hash n new_password)
    update_row users_t (λ u. u.id == user_id) (λ u. record u { password_hash = some hash })
    revoke_sessions user_id
    log (record (entry user_id "user.change_password" "User" user_id) {
      severity = some Severity.warning;
    })

  -- `resolveUserFromAccessToken`
  unfoldable pub resolve_user_from_access_token : String → Action AuthenticatedUser
  resolve_user_from_access_token token = do
    now ← gets (λ w. w.now)
    subject ← or_throw (env.jwt_verify token now) (unauthorized "Token invalide ou expiré")
    found ← find_unique users_t (λ u. u.id == subject)
    user ← or_throw found (unauthorized "Compte invalide")
    throw_if (not (is_active user.status)) (unauthorized "Compte invalide")
    permissions ← gets (permissions_of user)
    pure (authenticated user permissions none)

  -- `impersonate`: an access token of the target, with no refresh token.
  unfoldable pub impersonate : RowId → RowId → Option String → Action String
  impersonate admin_id target_id ip = do
    target ← find_or_throw users_t (λ u. u.id == target_id)
    log (record (entry admin_id "auth.impersonate" "User" target.id) {
      severity = some Severity.warning;
      ip = ip;
    })
    now ← gets (λ w. w.now)
    pure (env.jwt_sign target.id (some admin_id) now)
