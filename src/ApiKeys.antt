-- ===== src/ApiKeys.antt =====
-- ApiKeysService (backend/src/api-keys/api-keys.service.ts): keys never grant more than their
-- owner has.
pub mod Laws
use elysia_panel.Prelude.{
  ℕ, String, Bool, true, false, Option, none, some, List, [], ◌∷◌, not, ◌&&◌, ◌||◌, ◌==◌, same,
  includes, concat, select, ltb, reverse, find, update_rows, if◌then◌else◌,
}
use elysia_panel.World.Schema.{RowId, ApiKey, User, UserStatus, Severity, MetaValue}
use elysia_panel.World.State.{World, Env, api_keys_t, users_t}
use elysia_panel.World.Action.{
  Action, ⊤, bad_request, forbidden, not_found, unauthorized, ◌>>=◌, ◌>>◌, pure, gets, throw_if,
  or_throw, find_unique, create_row, update_many, delete_row, draw, log, entry,
}
use elysia_panel.Identity.{AuthenticatedUser, authenticated, permissions_of}

abbrev pub is_active : UserStatus → Bool
is_active UserStatus.active = true
is_active UserStatus.suspended = false
is_active UserStatus.banned = false

abbrev pub is_empty : List String → Bool
is_empty [] = true
is_empty (x ∷ xs) = false

-- `scopes.filter((s) => !actor.permissions.includes(s))`
abbrev pub not_granted : List String → List String → List String
not_granted permissions = select (λ s. not (includes permissions s))

-- `key.expiresAt && key.expiresAt < new Date()`
abbrev pub is_expired : Option ℕ → ℕ → Bool
is_expired none now = false
is_expired (some t) now = ltb t now

-- The scopes of a key that its owner's permissions still cover.
unfoldable pub effective_scopes : List String → List String → List String
effective_scopes permissions scopes =
    if includes permissions "*" then scopes else select (λ s. includes permissions s) scopes

-- `list`, newest first, without the hashes.
unfoldable pub list : RowId → World → List ApiKey
list user_id w = reverse (select (λ k. k.user_id == user_id) w.api_keys)

-- The checks of `create`.
unfoldable pub check_scopes : AuthenticatedUser → List String → Action ⊤
check_scopes actor scopes = do
  throw_if (is_empty scopes) (bad_request "Sélectionnez au moins une permission")
  throw_if
      (not (includes actor.permissions "*")
        && not (is_empty (not_granted actor.permissions scopes)))
      (forbidden "Vous ne pouvez pas créer une clé avec des permissions que vous n'avez pas")

-- `revoke`
unfoldable pub revoke : RowId → AuthenticatedUser → Action ⊤
revoke id actor = do
  found ← find_unique api_keys_t (λ k. k.id == id)
  key ← or_throw found (not_found "Clé API introuvable")
  throw_if (not (key.user_id == actor.id) && not (includes actor.permissions "*"))
      (forbidden "Vous n'avez pas accès à cette clé")
  delete_row api_keys_t (λ k. k.id == id)
  log (record (entry actor.id "api_key.revoke" "ApiKey" id) { severity = some Severity.warning })

pub record CreatedKey : Type 0 where
  pub id : RowId
  pub name : String
  pub key : String
  pub key_prefix : String

module _ (env : Env) (slice : String → ℕ → String) where
  -- `create`. `slice raw n` stands for `raw.slice(0, n)`.
  unfoldable pub create : AuthenticatedUser → String → List String → Option ℕ → Action CreatedKey
  unfolding check_scopes
  create actor name scopes expires_at = do
    check_scopes actor scopes
    secret ← draw (env.random_hex 32)
    let raw : String = concat "elysia_" secret
    id ← draw env.uuid
    create_row api_keys_t (λ k. same k.key_hash (env.sha256 raw))
        (record {
          id = id;
          user_id = actor.id;
          name = name;
          key_prefix = slice raw 15;
          key_hash = env.sha256 raw;
          scopes = scopes;
          last_used_at = none;
          expires_at = expires_at;
        })
    log (record (entry actor.id "api_key.create" "ApiKey" id) {
      severity = some Severity.warning;
      metadata = ("name", MetaValue.text name) ∷ ("scopes", MetaValue.texts scopes) ∷ [];
    })
    pure (record { id = id; name = name; key = raw; key_prefix = slice raw 15 })

module _ (env : Env) where
  -- `validateAndGetUser`
  unfoldable pub validate_and_get_user : String → Action AuthenticatedUser
  unfolding effective_scopes
  validate_and_get_user raw = do
    found ← find_unique api_keys_t (λ k. same k.key_hash (env.sha256 raw))
    key ← or_throw found (unauthorized "Clé API invalide")
    now ← gets (λ w. w.now)
    throw_if (is_expired key.expires_at now) (unauthorized "Clé API expirée")
    owner ← find_unique users_t (λ u. u.id == key.user_id)
    user ← or_throw owner (unauthorized "Compte invalide")
    throw_if (not (is_active user.status)) (unauthorized "Compte invalide")
    permissions ← gets (permissions_of user)
    update_many api_keys_t (λ k. k.id == key.id) (λ k. record k { last_used_at = some now })
    pure (authenticated user (effective_scopes permissions key.scopes) none)
