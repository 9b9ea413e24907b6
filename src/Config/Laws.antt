-- ===== src/Config/Laws.antt =====
-- What the check of the secrets guarantees in production, and the secret that it does not look at.
use elysia_panel.Prelude.{
  String, true, false, ◌≡◌, refl, ap, ◌≢◌, Option, none, some, same, same_iff, same_refl, arith,
}
use elysia_panel.World.State.{World, Env}
use elysia_panel.World.Action.{ok}
use elysia_panel.Guards.{HttpRequest, node_secret_guard}
use elysia_panel.Config.{
  ProcessEnv, configuration, is_insecure, or_default, assert_production_secrets_are_set, configured,
}

-- A secret that is neither empty nor one of those in the source.
abbrev pub IsStrong : String → Type 0
IsStrong s = (s ≢ "dev_access_secret") × (s ≢ "dev_refresh_secret") × (s ≢ "")

differs : (s t : String) → same s t ≡ false → t ≢ s
differs s t h e = ground (arith, h, same_iff s t)

IsStrong-of_test :
    (o : Option String) (d : String)
    → is_insecure o ≡ false
    → (o ≡ some (or_default o d)) × IsStrong (or_default o d)
IsStrong-of_test none d h = absurd (cc)
IsStrong-of_test (some s) d h = (
  refl,
  (
    differs "dev_access_secret" s (ground (arith, h)),
    differs "dev_refresh_secret" s (ground (arith, h)),
    differs "" s (ground (arith, h)),
  ),
)

-- The guard lets in whoever sends the secret of the configuration.
admitted :
    (env : Env) (request : HttpRequest) (w : World) (s : String)
    → env.node_secret ≡ some s
    → request.x_node_secret ≡ some s
    → same s "" ≡ false
    → node_secret_guard env request w ≡ (ok tt, w)
unfolding node_secret_guard
admitted env request w s expected sent filled = ground (arith, expected, sent, filled, same_refl s)

module _ (vars : ProcessEnv) where
  -- In production the backend starts only with both secrets set, neither of them empty or one of
  -- the two in the source, and these are the secrets of the configuration.
  pub production_secrets :
      vars "ELYSIA_ENV" ≡ some "production"
      → assert_production_secrets_are_set vars ≡ ok tt
      → (vars "JWT_ACCESS_SECRET" ≡ some (configuration vars).jwt_access_secret)
        × IsStrong (configuration vars).jwt_access_secret
        × (vars "JWT_REFRESH_SECRET" ≡ some (configuration vars).jwt_refresh_secret)
        × IsStrong (configuration vars).jwt_refresh_secret
  unfolding assert_production_secrets_are_set configuration
  production_secrets prod started =
      let here : same (or_default (vars "ELYSIA_ENV") "development") "production" ≡ true =
        ap (λ o. same (or_default o "development") "production") prod in
      let (a, s) =
        IsStrong-of_test (vars "JWT_ACCESS_SECRET") "dev_access_secret"
          (ground (arith, started, here)) in
      let (b, t) =
        IsStrong-of_test (vars "JWT_REFRESH_SECRET") "dev_refresh_secret"
          (ground (arith, started, here)) in
      (a, s, b, t)

  -- The check says nothing of the secret that the nodes share with the backend: in production, with
  -- two JWT secrets that pass and no NODE_INTERNAL_SECRET, the backend starts, and the guard of the
  -- internal endpoints lets in whoever sends the secret that stands in the source.
  pub node_secret_default :
      (env : Env) (request : HttpRequest) (w : World)
      → vars "ELYSIA_ENV" ≡ some "production"
      → is_insecure (vars "JWT_ACCESS_SECRET") ≡ false
      → is_insecure (vars "JWT_REFRESH_SECRET") ≡ false
      → vars "NODE_INTERNAL_SECRET" ≡ none
      → request.x_node_secret ≡ some "dev_node_internal_secret"
      → (assert_production_secrets_are_set vars ≡ ok tt)
        × (node_secret_guard (configured (configuration vars) env) request w ≡ (ok tt, w))
  unfolding assert_production_secrets_are_set configuration
  node_secret_default env request w prod access refresh unset sent =
      let here : same (or_default (vars "ELYSIA_ENV") "development") "production" ≡ true =
        ap (λ o. same (or_default o "development") "production") prod in
      (
        ground (arith, here),
        admitted (configured (configuration vars) env) request w "dev_node_internal_secret"
            (ap (λ o. some (or_default o "dev_node_internal_secret")) unset) sent refl,
      )
