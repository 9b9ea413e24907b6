-- ===== src/Tests/Identity.antt =====
-- The theorems on sessions, two-factor authentication, accounts and API keys, at a small instance.
use mathlib.Core.Option
use elysia_panel.Prelude.{
  true, false, ◌≡◌, refl, none, some, [], ◌∷◌, ◌==◌, same, find, arith, ◌≤◌, ◌↔◌, ℕ, String,
  includes,
}
use elysia_panel.World.Schema.{User, UserStatus, ApiKey}
use elysia_panel.World.State.{World}
use elysia_panel.World.Action.{ok, err, unauthorized}
use elysia_panel.Identity.{permissions_of}
use elysia_panel.Auth.Tokens.{refresh, issue_token_pair}
use elysia_panel.Auth.Tokens.Laws.{refresh_live, refresh_once}
use elysia_panel.Auth.TwoFactor.{
  login, check_code, open_session, generate_two_factor_secret, disable_two_factor,
}
use elysia_panel.Auth.TwoFactor.Laws.{recovery_code_once, generate_replaces_active}
use elysia_panel.ApiKeys.{validate_and_get_user}
use elysia_panel.ApiKeys.Laws.{IsCovered, touched, validate-ok}
use elysia_panel.Tests.Demo.{env, world, alice, alice_auth, token}

refresh_once_example :
    refresh env "t1" none (refresh env "t1" none world).1
    ≡ (err (unauthorized "Refresh token invalide ou expiré"), (refresh env "t1" none world).1)
refresh_once_example =
    refresh_once env "t1" world none none (record { access_token = "jwt"; refresh_token = "f00d" })
      (refresh env "t1" none world).1
      (refresh_live env "t1" world none token refl refl (omega arith) refl) refl

abbrev after_recovery : World
after_recovery = (login env 1 (some "r1") none none world).1

recovery_code_once_example :
    login env 1 (some "r1") none none after_recovery
    ≡ (err (unauthorized "Code 2FA invalide"), after_recovery)
unfolding login check_code open_session issue_token_pair
recovery_code_once_example =
    recovery_code_once env 1 none none alice "r1" "SECRET" world after_recovery _ refl refl refl
      refl refl refl refl refl

abbrev after_generate : World
after_generate = (generate_two_factor_secret env 1 world).1

generate_replaces_active_example :
    let (result, w') = disable_two_factor env 1 "NEWSECRET" after_generate in
    (result ≡ ok tt)
    × (Option.map (λ u. u.two_factor_enabled) (find (λ u. u.id == 1) w'.users) ≡ some false)
generate_replaces_active_example =
    generate_replaces_active env 1 alice "NEWSECRET" world after_generate refl refl refl refl refl

validate-ok_example :
    (key : ApiKey) × (owner : User) × (find (λ k. same k.key_hash "elysia_key") world.api_keys
      ≡ some key)
    × (find (λ u. u.id == key.user_id) world.users ≡ some owner)
    × ((at : ℕ) → key.expires_at ≡ some at → world.now ≤ at)
    × (owner.status ≡ UserStatus.active)
    × (1 ≡ owner.id)
    × ((p : String)
        → (includes ("servers.read" ∷ []) p ≡ true)
          ↔ IsCovered (permissions_of owner world) key.scopes p)
    × ((validate_and_get_user env "elysia_key" world).1
        ≡ record world { api_keys = touched key world })
unfolding validate_and_get_user permissions_of
validate-ok_example =
    validate-ok env "elysia_key" world (record alice_auth { permissions = "servers.read" ∷ [] })
      refl
