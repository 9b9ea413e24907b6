-- ===== src/Files/Sftp.antt =====
-- SftpAuthService (backend/src/files/sftp-auth.service.ts): the login of a daemon's SFTP server,
-- with the name "<account>.<start of a server's UUID>".
pub mod Laws
use elysia_panel.Prelude.{
  ℕ, String, Bool, true, false, Option, none, some, List, [], ◌∷◌, ◌&&◌, ◌||◌, not, ◌==◌, same, ltb,
  includes, length, find, select, if◌then◌else◌,
}
use elysia_panel.Prelude.Decimal.{codes}
use elysia_panel.Prelude.Slices.{starts, split_last}
use elysia_panel.World.Schema.{Server, ServerSubUser}
use elysia_panel.World.State.{World, Env}
use elysia_panel.Identity.{AuthenticatedUser}
use elysia_panel.Auth.Accounts.{validate_local_user_by_username}

-- `SftpAuthResult`: refused, or allowed for a server.
pub data SftpAuthResult : Type 0 where
  refused : SftpAuthResult
  allowed : String → Bool → SftpAuthResult

-- The sub-user row of `subUsers[0]`, of which there is at most one for a user and a server.
abbrev pub sub_user_of : Server → AuthenticatedUser → World → Option ServerSubUser
sub_user_of server user w =
    find (λ su. su.server_id == server.id && su.user_id == user.id) w.sub_users

-- What the sub-user's permissions allow.
abbrev pub for_sub_user : String → Option ServerSubUser → SftpAuthResult
for_sub_user uuid none = refused
for_sub_user uuid (some su) =
    if includes su.permissions "files.read"
    then allowed uuid (not (includes su.permissions "files.write"))
    else refused

-- The decision on the server that the name picks.
abbrev pub for_server : AuthenticatedUser → World → Server → SftpAuthResult
for_server user w server =
    if includes user.permissions "*" || server.owner_id == user.id
    then allowed server.uuid false
    else for_sub_user server.uuid (sub_user_of server user w)

-- `candidates.length !== 1`
abbrev pub the_only_one : List Server → Option Server
the_only_one [] = none
the_only_one (s ∷ []) = some s
the_only_one (s ∷ t ∷ rest) = none

-- `authenticate` after the name was taken apart.
abbrev pub for_account : Env → String → String → String → World → SftpAuthResult
for_account env account server_short password w =
    elim (validate_local_user_by_username env account password w) [
      | none ↦ refused
      | some user ↦ elim (the_only_one (select (λ s. starts server_short s.uuid) w.servers)) [
        | none ↦ refused
        | some server ↦ for_server user w server
      ]
    ]

-- `authenticate`
unfoldable pub authenticate : Env → String → String → World → SftpAuthResult
authenticate env username password w = elim (split_last "." username) [
  | none ↦ refused
  | some (account, server_short) ↦
      if same account "" || ltb (length (codes server_short)) 4
      then refused
      else for_account env account server_short password w
]
