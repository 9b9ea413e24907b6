-- ===== src/Auth/Accounts/Laws.antt =====
-- What a change of password, an access token and a registration promise.
use mathlib.Core.Option
use elysia_panel.Prelude.{
  String, true, false, ◌≡◌, sym, ap, ◌∙◌, subst, Option, none, some, [], ◌∷◌, ◌++◌, not, ◌==◌, same,
  find, count_rows, any, All, arith, Option-cases, inl, inr, find-update_rows, find_passes, ◌+◌,
  if◌then◌else◌, update_rows,
}
use elysia_panel.World.Schema.{RowId, User}
use elysia_panel.World.State.{World, Env}
use elysia_panel.World.Action.{ok, err, unauthorized}
use elysia_panel.Identity.{AuthenticatedUser, permissions_of, authenticated}
use elysia_panel.ApiKeys.{is_active}
use elysia_panel.Users.{new_user}
use elysia_panel.Users.Laws.{HasNoSession, revoke_row, All-revoked}
use elysia_panel.Auth.Tokens.{TokenPair, issue_token_pair}
use elysia_panel.Auth.Accounts.{
  system_user_id, Register, is_taken, knows, register, change_own_password,
  resolve_user_from_access_token,
}

module _ (env : Env) (id : RowId) (current new : String) (w : World) (user : User) where
  abbrev rehashed : User → User
  rehashed u = record u { password_hash = some (env.bcrypt_hash w.drawn new) }

  -- A user who gives the current password has the new one from then on, and no session left. The
  -- hash must be one that bcrypt recognises, and not empty.
  pub change_own_password-ok :
      find (λ u. u.id == id) w.users ≡ some user
      → knows env user.password_hash current ≡ true
      → env.bcrypt_compare new (env.bcrypt_hash w.drawn new) ≡ true
      → same (env.bcrypt_hash w.drawn new) "" ≡ false
      → let (result, w') = change_own_password env id current new w in
        (result ≡ ok tt)
        × (u : User) × (find (λ v. v.id == id) w'.users ≡ some u)
        × (knows env u.password_hash new ≡ true)
        × HasNoSession id w'
  unfolding change_own_password
  change_own_password-ok found known compares filled =
      let tokens : (change_own_password env id current new w).1.refresh_tokens
          ≡ update_rows (λ t. t.user_id == id) revoke_row w.refresh_tokens =
        ground arith in
      let users : (change_own_password env id current new w).1.users
          ≡ update_rows (λ u. u.id == id) rehashed w.users =
        ground arith in
      let same_id : (user.id == id) ≡ true =
        ground (arith, find_passes (λ u. u.id == id) w.users user found) in
      (
        ground arith,
        rehashed user,
        ground (arith, users, find-update_rows (λ (u : User). u.id == id) rehashed w.users),
        ground arith,
        subst (All _) (sym tokens) (All-revoked id w.refresh_tokens),
      )

  -- Without the current password nothing is written.
  pub change_own_password-err :
      find (λ u. u.id == id) w.users ≡ some user
      → knows env user.password_hash current ≡ false
      → change_own_password env id current new w
        ≡ (err (unauthorized "Mot de passe actuel incorrect"), w)
  unfolding change_own_password
  change_own_password-err found unknown = ground arith

module _ (env : Env) (token : String) (w : World) where
  -- A token resolves only to a stored, active user that it names, with the permissions that the
  -- user's role has now, and nothing is written.
  pub resolve_user-ok :
      (auth : AuthenticatedUser)
      → (resolve_user_from_access_token env token w).0 ≡ ok auth
      → (u : User) × (env.jwt_verify token w.now ≡ some u.id)
        × (find (λ v. v.id == u.id) w.users ≡ some u)
        × (is_active u.status ≡ true)
        × (auth ≡ authenticated u (permissions_of u w) none)
        × ((resolve_user_from_access_token env token w).1 ≡ w)
  unfolding resolve_user_from_access_token
  resolve_user-ok auth h = elim (Option-cases (env.jwt_verify token w.now)) [
    | inl missing ↦ absurd (ground arith)
    | inr (subject, e) ↦ elim (Option-cases (find (λ u. u.id == subject) w.users)) [
      | inl gone ↦ absurd (ground arith)
      | inr (u, e') ↦
          let named : u.id ≡ subject =
            ground (arith, find_passes (λ u. u.id == subject) w.users u e') in
          (
            u,
            ground arith,
            ap (λ k. find (λ v. v.id == k) w.users) named ∙ e',
            ground arith,
            ground arith,
            ground arith,
          )
    ]
  ]

module _ (env : Env) (dto : Register) (ip : Option String) (w : World) where
  -- A registration that succeeds found neither the address nor the name among the users, and adds
  -- one account: an administrator's if there was no account but the system's, a client's otherwise.
  pub register-ok :
      (pair : TokenPair)
      → (register env dto ip w).0 ≡ ok pair
      → (any (is_taken dto) w.users ≡ false)
        × ((register env dto ip w).1.users
            ≡ w.users
              ++ new_user
                  (env.uuid (w.drawn + 1))
                  dto.email
                  dto.username
                  (some (env.bcrypt_hash w.drawn dto.password))
                  (Option.map
                    (λ r. r.id)
                    (find
                      (λ r. same r.name (
                        if count_rows (λ u. not (u.id == system_user_id)) w.users == 0
                        then "admin"
                        else "client"))
                      w.roles))
                ∷ [])
  unfolding register issue_token_pair
  register-ok pair h = (ground arith, ground arith)
