-- ===== src/Guards.antt =====
-- The guards in front of every handler: JwtAuthGuard with JwtStrategy, PermissionsGuard and
-- NodeSecretGuard (backend/src/auth/guards/, backend/src/auth/strategies/jwt.strategy.ts and
-- backend/src/common/guards/node-secret.guard.ts), in the order in which main.ts sets them up.
pub mod Laws
use elysia_panel.Prelude.{
  String, Bool, true, false, Option, none, some, List, [], ◌∷◌, ◌&&◌, ◌||◌, not, ◌==◌, same,
  includes, find, if◌then◌else◌,
}
use elysia_panel.Prelude.Slices.{starts, drop_prefix, ends}
use elysia_panel.World.Schema.{RowId, User, UserStatus}
use elysia_panel.World.State.{World, Env, JwtPayload, users_t}
use elysia_panel.World.Action.{
  Action, ⊤, forbidden, unauthorized, ◌>>=◌, ◌>>◌, pure, gets, throw, throw_if, or_throw,
  find_unique,
}
use elysia_panel.Identity.{AuthenticatedUser, permissions_of, authenticated}
use elysia_panel.ApiKeys.{validate_and_get_user}

-- What the guards read of a request: its URL and two of its headers.
pub record HttpRequest : Type 0 where
  pub url : String
  pub authorization : Option String
  pub x_node_secret : Option String

-- `request?.url?.endsWith('/metrics')`
abbrev pub is_metrics : String → Bool
is_metrics url = ends (same "/metrics") url

-- `request?.url?.startsWith('/api/docs')`
abbrev pub is_docs : String → Bool
is_docs url = starts "/api/docs" url

-- The token behind "Bearer ".
abbrev pub bearer_token : Option String → Option String
bearer_token none = none
bearer_token (some header) =
    if starts "Bearer " header then some (drop_prefix "Bearer " header) else none

-- The token, if it is an API key.
abbrev pub api_key_token : Option String → Option String
api_key_token header = elim (bearer_token header) [
  | none ↦ none
  | some token ↦ if starts "elysia_" token then some token else none
]

-- The exceptions of `validate` on the status of a user.
abbrev pub check_status : UserStatus → Action ⊤
check_status UserStatus.active = pure tt
check_status UserStatus.suspended = throw (unauthorized "Compte suspendu")
check_status UserStatus.banned = throw (unauthorized "Compte invalide ou banni")

-- `JwtStrategy.validate`
unfoldable pub validate : JwtPayload → Action AuthenticatedUser
validate payload = do
  found ← find_unique users_t (λ u. u.id == payload.sub)
  user ← or_throw found (unauthorized "Compte invalide ou banni")
  check_status user.status
  permissions ← gets (permissions_of user)
  pure (authenticated user permissions payload.impersonated_by)

-- `user.permissions.includes(…)` for each of the required ones.
abbrev pub has_all : List String → AuthenticatedUser → Bool
has_all [] user = true
has_all (p ∷ ps) user = includes user.permissions p && has_all ps user

-- `PermissionsGuard.canActivate`
unfoldable pub permissions_guard : List String → Option AuthenticatedUser → Action ⊤
permissions_guard [] user = pure tt
permissions_guard (p ∷ ps) none = throw (forbidden "Utilisateur non authentifié")
permissions_guard (p ∷ ps) (some user) =
    throw_if (not (includes user.permissions "*") && not (has_all (p ∷ ps) user))
      (forbidden "Permissions manquantes")

-- `NodeSecretGuard.canActivate`: `timingSafeEqual` is the equality of two texts.
unfoldable pub node_secret_guard : Env → HttpRequest → Action ⊤
node_secret_guard env request = elim request.x_node_secret [
  | none ↦ throw (unauthorized "Secret interne invalide")
  | some provided ↦ elim env.node_secret [
    | none ↦ throw (unauthorized "Secret interne invalide")
    | some expected ↦
        throw_if (same provided "" || same expected "" || not (same provided expected))
          (unauthorized "Secret interne invalide")
  ]
]

module _ (env : Env) where
  -- The user of the access token: Passport reads and verifies it, `validate` finds the user.
  unfoldable pub passport : HttpRequest → Action AuthenticatedUser
  unfolding validate
  passport request = do
    now ← gets (λ w. w.now)
    payload ← or_throw (env.passport_jwt request.authorization now) (unauthorized "Unauthorized")
    validate payload

  -- The user that an API key or, without one, the access token stands for.
  unfoldable pub authenticate_with : Option String → HttpRequest → Action AuthenticatedUser
  authenticate_with (some token) request = validate_and_get_user env token
  authenticate_with none request = passport request

  unfoldable pub authenticate : HttpRequest → Action AuthenticatedUser
  authenticate request = authenticate_with (api_key_token request.authorization) request

  -- `JwtAuthGuard.canActivate`: what it leaves in `request.user`.
  unfoldable pub jwt_auth_guard : Bool → HttpRequest → Action (Option AuthenticatedUser)
  jwt_auth_guard is_public request =
      if is_public || is_metrics request.url || is_docs request.url
      then pure none
      else (authenticate request >>= λ user. pure (some user))

  -- Both guards in their order, then the handler with the user they leave.
  unfoldable pub guarded :
      {A : Type 0}
      → Bool
      → List String
      → (Option AuthenticatedUser → Action A)
      → HttpRequest
      → Action A
  guarded is_public required handler request = do
    user ← jwt_auth_guard is_public request
    permissions_guard required user
    handler user
