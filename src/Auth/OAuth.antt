-- ===== src/Auth/OAuth.antt =====
-- Logins by another provider: `validateOAuthLogin` of backend/src/auth/auth.service.ts, the three
-- strategies that call it (backend/src/auth/strategies/), and the callbacks of auth.controller.ts.
pub mod Laws
use Prim.Native.String.{String}
use mathlib.Core.Option
use elysia_panel.Prelude.{
  ℕ, zero, suc, Bool, true, false, Option, none, some, ◌||◌, ◌==◌, same, concat, if◌then◌else◌, [],
  List, ◌∷◌,
}
use elysia_panel.World.Schema.{RowId, User}
use elysia_panel.World.State.{World, Env, users_t, roles_t}
use elysia_panel.World.Action.{
  Action, internal, ◌>>=◌, ◌>>◌, pure, throw, find_unique, create_row, upsert_row, draw,
}
use elysia_panel.Users.{new_user}
use elysia_panel.Auth.TwoFactor.{LoginResult, login}

pub data Provider : Type 0 where
  discord google github : Provider

-- A provider need not give an address.
pub record OAuthProfile : Type 0 where
  pub provider : Provider
  pub provider_id : String
  pub email : Option String
  pub username : String

-- `user[providerField]`
abbrev pub provider_field : Provider → User → Option String
provider_field Provider.discord u = u.discord_id
provider_field Provider.google u = u.google_id
provider_field Provider.github u = u.github_id

-- `{ ...user, [providerField]: id }`
abbrev pub linked : Provider → String → User → User
linked Provider.discord id u = record u { discord_id = some id }
linked Provider.google id u = record u { google_id = some id }
linked Provider.github id u = record u { github_id = some id }

-- `text.slice(0, n)`
abbrev pub first_chars : ℕ → String → String
first_chars zero s = ""
first_chars (suc n) String.[] = ""
first_chars (suc n) (String.◌∷◌ c s) = String.◌∷◌ c (first_chars n s)

abbrev pub holds_id : Provider → String → User → Bool
holds_id provider id u = elim (provider_field provider u) [ none ↦ false | some x ↦ same x id ]

-- `${profile.username}_${profile.providerId}`.slice(0, 32)
abbrev pub oauth_username : OAuthProfile → String
oauth_username p = first_chars 32 (concat p.username (concat "_" p.provider_id))

module _ (env : Env) where
  -- The account of the address, linked to the provider, or a new one.
  unfoldable pub link_or_create : OAuthProfile → String → Option RowId → Action User
  link_or_create p email role_id =
      upsert_row users_t (λ u. same u.email email) (linked p.provider p.provider_id)
        (do
          id ← draw env.uuid
          create_row users_t (λ u. same u.email email || same u.username (oauth_username p))
              (linked p.provider p.provider_id (new_user id email (oauth_username p) none role_id)))

  -- The database client refuses a missing address.
  link_by : OAuthProfile → Option String → Option RowId → Action User
  link_by p none role_id = throw (internal "Argument `email` is missing.")
  link_by p (some email) role_id = link_or_create p email role_id

  -- `validateOAuthLogin`
  unfoldable pub validate_oauth_login : OAuthProfile → Action User
  unfolding link_by
  validate_oauth_login p = do
    found ← find_unique users_t (holds_id p.provider p.provider_id)
    elim found [
      | some user ↦ pure user
      | none ↦ do
        role ← find_unique roles_t (λ r. same r.name "client")
        link_by p p.email (Option.map (λ r. r.id) role)
    ]

  -- What a strategy hands over, then the callback: `login(user.id, undefined, ip)`.
  unfoldable pub oauth_callback : OAuthProfile → Option String → Action LoginResult
  oauth_callback p ip = do user ← validate_oauth_login p; login env user.id none ip none

-- What Passport reads of the provider's answer. `display_name` and the list of addresses may be
-- missing.
pub record PassportProfile : Type 0 where
  pub id : String
  pub username : String
  pub email : Option String
  pub emails : List String
  pub display_name : Option String

-- `profile.emails?.[0]?.value`
abbrev pub first_email : PassportProfile → Option String
first_email profile = elim profile.emails [ [] ↦ none | e ∷ es ↦ some e ]

-- `DiscordStrategy.validate`
abbrev pub discord_profile : PassportProfile → OAuthProfile
discord_profile profile = record {
  provider = Provider.discord;
  provider_id = profile.id;
  email = profile.email;
  username = profile.username;
}

-- `GithubStrategy.validate`
abbrev pub github_profile : PassportProfile → OAuthProfile
github_profile profile = record {
  provider = Provider.github;
  provider_id = profile.id;
  email = elim (first_email profile) [
    | some e ↦ some e
    | none ↦ some (concat profile.username "@users.noreply.github.com")
  ];
  username = profile.username;
}

-- `GoogleStrategy.validate`; `underscored` is `replace(/\s+/g, '_')`.
abbrev pub google_profile : (String → String) → PassportProfile → OAuthProfile
google_profile underscored profile = record {
  provider = Provider.google;
  provider_id = profile.id;
  email = first_email profile;
  username = elim profile.display_name [ some name ↦ underscored name | none ↦ profile.id ];
}
