-- ===== src/Files/Sftp/Laws.antt =====
-- Whom the SFTP login lets in, and with which rights.
use elysia_panel.Prelude.{
  ◌≤◌, String, Bool, true, false, ◌≡◌, ap, ◌∙◌, some, List, [], ◌∷◌, ◌⊎◌, inl, inr, ◌||◌, ◌&&◌, not,
  ◌==◌, same, ltb, includes, length, find, select, concat, arith, Bool-cases, Option-cases,
}
use elysia_panel.Prelude.Decimal.{codes}
use elysia_panel.Prelude.Slices.{starts, split_last, has_char, split_last-concat}
use elysia_panel.World.Schema.{User, UserStatus, Server, ServerSubUser}
use elysia_panel.World.State.{World, Env}
use elysia_panel.Identity.{AuthenticatedUser, permissions_of}
use elysia_panel.ApiKeys.{is_active}
use elysia_panel.ApiKeys.Laws.{active_of_test}
use elysia_panel.Auth.Accounts.{validate_local_user_by_username}
use elysia_panel.Files.Sftp.{
  allowed, sub_user_of, for_server, the_only_one, for_account, authenticate,
}

-- Why the decision on a server lets somebody in.
abbrev pub IsEntitled : AuthenticatedUser → Server → Bool → World → Type 0
IsEntitled user server read_only w =
    ((includes user.permissions "*" || server.owner_id == user.id) ≡ true)
    ⊎ ((su : ServerSubUser) × (find (λ x. (x.server_id == server.id) && (x.user_id == user.id))
            w.sub_users
          ≡ some su)
        × (includes su.permissions "files.read" ≡ true)
        × (read_only ≡ not (includes su.permissions "files.write")))

for_server-allowed :
    (user : AuthenticatedUser) (w : World) (server : Server) (uuid : String) (read_only : Bool)
    → for_server user w server ≡ allowed uuid read_only
    → (uuid ≡ server.uuid) × IsEntitled user server read_only w
for_server-allowed user w server uuid read_only h =
    elim (Bool-cases (includes user.permissions "*" || server.owner_id == user.id)) [
      | inl full ↦ (ground arith, inl full)
      | inr partial ↦ elim (Option-cases (sub_user_of server user w)) [
        | inl missing ↦ absurd (ground arith)
        | inr (su, e) ↦ elim (Bool-cases (includes su.permissions "files.read")) [
          | inl reads ↦ (ground arith, inr (su, e, reads, ground arith))
          | inr blind ↦ absurd (ground arith)
        ]
      ]
    ]

the_only_one-some : (xs : List Server) (s : Server) → the_only_one xs ≡ some s → xs ≡ s ∷ []
the_only_one-some [] s h = absurd (cc)
the_only_one-some (x ∷ []) s h = cc
the_only_one-some (x ∷ y ∷ xs) s h = absurd (cc)

-- What a decision for an account has seen.
for_account-allowed :
    (env : Env) (account short password : String) (w : World) (uuid : String) (read_only : Bool)
    → for_account env account short password w ≡ allowed uuid read_only
    → (user : AuthenticatedUser) × (server : Server) × (validate_local_user_by_username env account
          password w
        ≡ some user)
      × (select (λ s. starts short s.uuid) w.servers ≡ server ∷ [])
      × (for_server user w server ≡ allowed uuid read_only)
for_account-allowed env account short password w uuid read_only h =
    elim (Option-cases (validate_local_user_by_username env account password w)) [
      | inl unknown ↦ absurd (ground arith)
      | inr (user, e) ↦
          let candidates : List Server = select (λ s. starts short s.uuid) w.servers in
          elim (Option-cases (the_only_one candidates)) [
            | inl ambiguous ↦ absurd (ground arith)
            | inr (server, e') ↦
                (user, server, e, the_only_one-some candidates server e', ground arith)
          ]
    ]

-- The user signs in with a password: a stored one with that name, who is active, whose stored hash
-- the password matches, and with the permissions of the role.
abbrev pub IsSignedIn : Env → String → String → AuthenticatedUser → World → Type 0
IsSignedIn env account password user w =
    (u : User) × (hash : String) × (find (λ x. same x.username account) w.users ≡ some u)
    × (u.status ≡ UserStatus.active)
    × (u.password_hash ≡ some hash)
    × (env.bcrypt_compare password hash ≡ true)
    × (user.id ≡ u.id)
    × (user.permissions ≡ permissions_of u w)

validate-IsSignedIn :
    (env : Env) (account password : String) (user : AuthenticatedUser) (w : World)
    → validate_local_user_by_username env account password w ≡ some user
    → IsSignedIn env account password user w
unfolding validate_local_user_by_username
validate-IsSignedIn env account password user w h =
    elim (Option-cases (find (λ x. same x.username account) w.users)) [
      | inl unknown ↦ absurd (ground arith)
      | inr (u, e) ↦ elim (Option-cases u.password_hash) [
        | inl open_account ↦ absurd (ground arith)
        | inr (hash, e') ↦ elim (Bool-cases (is_active u.status)) [
          | inr closed ↦ absurd (ground arith)
          | inl lively ↦ elim (Bool-cases (env.bcrypt_compare password hash)) [
            | inr wrong ↦ absurd (ground arith)
            | inl right ↦
                (u, hash, e, active_of_test u.status lively, e', right, ground arith, ground arith)
          ]
        ]
      ]
    ]

module _ (env : Env) (username password : String) (w : World) where
  -- A login that is let in named an account and a part of a UUID of four characters or more. The
  -- user with that name is stored and active, the password matches the stored hash, and the server
  -- is the only one whose UUID starts so. The user is an administrator or the owner, or a sub-user
  -- who may read files and gets to write exactly with the permission to do so.
  pub authenticate-ok :
      (uuid : String) (read_only : Bool)
      → authenticate env username password w ≡ allowed uuid read_only
      → (account short : String) × (user : AuthenticatedUser) × (server : Server) × (split_last "."
            username
          ≡ some (account, short))
        × (4 ≤ length (codes short))
        × IsSignedIn env account password user w
        × (select (λ s. starts short s.uuid) w.servers ≡ server ∷ [])
        × (uuid ≡ server.uuid)
        × IsEntitled user server read_only w
  unfolding authenticate
  authenticate-ok uuid read_only h = elim (Option-cases (split_last "." username)) [
    | inl whole ↦ absurd (ground arith)
    | inr ((account, short), e) ↦
        let named : (same account "" || ltb (length (codes short)) 4) ≡ false = ground arith in
        let decided : for_account env account short password w ≡ allowed uuid read_only =
          ground arith in
        let (user, server, known, only, let_in) =
          for_account-allowed env account short password w uuid read_only decided in
        let (its, entitled) = for_server-allowed user w server uuid read_only let_in in
        (
          account,
          short,
          user,
          server,
          e,
          ground arith,
          validate-IsSignedIn env account password user w known,
          only,
          its,
          entitled,
        )
  ]

  -- The name that joins an account and four or more characters of a UUID with a dot is read back as
  -- these two: with the account's password it gets what the only such server allows the user.
  pub authenticate_joined :
      (account short : String) (user : AuthenticatedUser) (server : Server)
      → username ≡ concat account (String.◌∷◌ "." short)
      → same account "" ≡ false
      → has_char "." short ≡ false
      → 4 ≤ length (codes short)
      → validate_local_user_by_username env account password w ≡ some user
      → select (λ s. starts short s.uuid) w.servers ≡ server ∷ []
      → authenticate env username password w ≡ for_server user w server
  unfolding authenticate
  authenticate_joined account short user server joined named undotted long known only =
      let parts : split_last "." username ≡ some (account, short) =
        ap (split_last ".") joined ∙ split_last-concat "." account short undotted in
      ground (arith, parts, known, only)
