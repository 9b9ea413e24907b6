-- ===== src/Users.antt =====
-- UsersService (backend/src/users/users.service.ts).
pub mod Laws
use elysia_panel.Prelude.{
  ◌-◌, update_rows, ℕ, String, Bool, true, false, Option, none, some, List, [], ◌∷◌, ◌++◌, ◌||◌,
  ◌&&◌, not, ◌==◌, same, any, is_for, reverse, find, if◌then◌else◌,
}
use elysia_panel.World.Schema.{RowId, User, UserStatus, RefreshToken, Severity, MetaValue}
use elysia_panel.World.State.{World, Env, users_t, tokens_t, api_keys_t, sub_users_t, servers_t}
use elysia_panel.World.Action.{
  Action, ⊤, not_found, unique_violation, foreign_key_violation, record_missing, ◌>>=◌, ◌>>◌, pure,
  gets, throw, throw_if, or_throw, find_unique, create_row, update_row, update_many, delete_row,
  delete_many, draw, log, entry, modify,
}

abbrev pub take_rows : {A : Type 0} → ℕ → List A → List A
take_rows n [] = []
take_rows n (x ∷ xs) = let rest = take_rows (n - 1) xs in if n == 0 then [] else x ∷ rest

abbrev pub skip_rows : {A : Type 0} → ℕ → List A → List A
skip_rows n [] = []
skip_rows n (x ∷ xs) = let rest = skip_rows (n - 1) xs in if n == 0 then x ∷ xs else rest

abbrev pub or_number : Option ℕ → ℕ → ℕ
or_number none d = d
or_number (some n) d = n

-- `list`: a page of the users, newest first.
unfoldable pub list : Option ℕ → Option ℕ → World → List User
list skip take w = take_rows (or_number take 50) (skip_rows (or_number skip 0) (reverse w.users))

unfoldable pub find_by_id_or_throw : RowId → Action User
find_by_id_or_throw id = do
  found ← find_unique users_t (λ u. u.id == id)
  or_throw found (not_found "Utilisateur introuvable")

unfoldable pub lookup_by_email : String → Action (RowId × String × String)
lookup_by_email email = do
  found ← find_unique users_t (λ u. same u.email email)
  user ← or_throw found (not_found "Aucun utilisateur avec cet email")
  pure (user.id, user.username, user.email)

pub record CreateUser : Type 0 where
  pub email : String
  pub username : String
  pub password : String
  pub role_id : Option RowId

-- A row as `user.create` writes it, with the defaults of the schema.
abbrev pub new_user : RowId → String → String → Option String → Option RowId → User
new_user id email username password_hash role_id = record {
  id = id;
  email = email;
  username = username;
  password_hash = password_hash;
  status = UserStatus.active;
  suspended_reason = none;
  banned_reason = none;
  two_factor_enabled = false;
  two_factor_secret = none;
  two_factor_recovery_codes = [];
  discord_id = none;
  google_id = none;
  github_id = none;
  role_id = role_id;
}

-- `updateMany({ where: { userId }, data: { revoked: true } })`
abbrev pub revoke_sessions : RowId → Action ⊤
revoke_sessions id = update_many tokens_t (λ t. t.user_id == id) (λ t. record t { revoked = true })

pub record UpdateUser : Type 0 where
  pub username : Option String
  pub role_id : Option RowId

abbrev pub updated : UpdateUser → User → User
updated dto u = record u {
  username = elim dto.username [ none ↦ u.username | some n ↦ n ];
  role_id = elim dto.role_id [ none ↦ u.role_id | some r ↦ some r ];
}

-- `{ ...dto }`
abbrev fields_of : UpdateUser → List (String × MetaValue)
fields_of dto =
    (elim dto.username [ none ↦ [] | some n ↦ ("username", MetaValue.text n) ∷ [] ])
    ++ (elim dto.role_id [ none ↦ [] | some r ↦ ("roleId", MetaValue.ref r) ∷ [] ])

-- Whether another user has the new username.
abbrev takes_name : RowId → UpdateUser → User → Bool
takes_name id dto u = elim dto.username [
  | none ↦ false
  | some n ↦ same u.username n && not (u.id == id)
]

-- The foreign key of `roleId`: no role, or a stored one.
abbrev pub is_unknown_role : Option RowId → World → Bool
is_unknown_role none w = false
is_unknown_role (some id) w = not (any (λ r. r.id == id) w.roles)

unfoldable pub update : RowId → UpdateUser → RowId → Action User
update id dto actor_id = do
  taken ← gets (λ w. any (λ u. u.id == id) w.users && any (takes_name id dto) w.users)
  throw_if taken unique_violation
  dangling ← gets (λ w. any (λ u. u.id == id) w.users && is_unknown_role dto.role_id w)
  throw_if dangling foreign_key_violation
  user ← update_row users_t (λ u. u.id == id) (updated dto)
  log (record (entry actor_id "user.update" "User" id) { metadata = fields_of dto })
  pure user

unfoldable pub suspend : RowId → String → RowId → Action User
suspend id reason actor_id = do
  user ←
      update_row users_t (λ u. u.id == id)
        (λ u. record u { status = UserStatus.suspended; suspended_reason = some reason })
  revoke_sessions id
  log (record (entry actor_id "user.suspend" "User" id) {
    severity = some Severity.warning;
    metadata = ("reason", MetaValue.text reason) ∷ [];
  })
  pure user

unfoldable pub ban : RowId → String → RowId → Action User
ban id reason actor_id = do
  user ←
      update_row users_t (λ u. u.id == id)
        (λ u. record u { status = UserStatus.banned; banned_reason = some reason })
  revoke_sessions id
  log (record (entry actor_id "user.ban" "User" id) {
    severity = some Severity.critical;
    metadata = ("reason", MetaValue.text reason) ∷ [];
  })
  pure user

unfoldable pub reactivate : RowId → RowId → Action User
reactivate id actor_id = do
  user ←
      update_row users_t (λ u. u.id == id)
        (λ u. record u {
          status = UserStatus.active;
          suspended_reason = none;
          banned_reason = none;
        })
  log (entry actor_id "user.reactivate" "User" id)
  pure user

module _ (env : Env) where
  unfoldable pub create : CreateUser → RowId → Action User
  create dto actor_id = do
    password_hash ← draw (λ n. env.bcrypt_hash n dto.password)
    id ← draw env.uuid
    taken ← gets (λ w. any (λ u. same u.email dto.email || same u.username dto.username) w.users)
    dangling ← gets (is_unknown_role dto.role_id)
    throw_if (not taken && dangling) foreign_key_violation
    user ←
        create_row users_t (λ u. same u.email dto.email || same u.username dto.username)
          (new_user id dto.email dto.username (some password_hash) dto.role_id)
    log (entry actor_id "user.create" "User" id)
    pure user

  unfoldable pub reset_password : RowId → String → RowId → Action ⊤
  reset_password id new_password actor_id = do
    password_hash ← draw (λ n. env.bcrypt_hash n new_password)
    update_row users_t (λ u. u.id == id) (λ u. record u { password_hash = some password_hash })
    revoke_sessions id
    log (record (entry actor_id "user.reset_password" "User" id) {
      severity = some Severity.warning;
    })

-- `delete`, with the actions of the foreign keys: rows that must keep their user stop it, sessions,
-- API keys and accesses to servers go, audit entries lose their actor.
unfoldable pub delete : RowId → RowId → Action ⊤
delete id actor_id = do
  held ← gets (λ w.
      any (λ s. s.owner_id == id) w.servers
      || any (λ t. t.user_id == id) w.tickets
      || any (λ m. m.author_id == id) w.messages
      || any (λ i. i.user_id == id) w.invoices
      || any (λ s. s.user_id == id) w.subscriptions)
  found ← find_unique users_t (λ u. u.id == id)
  or_throw found record_missing
  throw_if held foreign_key_violation
  delete_row users_t (λ u. u.id == id)
  delete_many tokens_t (λ t. t.user_id == id)
  delete_many api_keys_t (λ k. k.user_id == id)
  delete_many sub_users_t (λ su. su.user_id == id)
  modify (λ w. record w {
    audit_logs =
        update_rows (λ a. is_for id a.actor_id) (λ a. record a { actor_id = none }) w.audit_logs;
  })
  log (record (entry actor_id "user.delete" "User" id) { severity = some Severity.critical })
