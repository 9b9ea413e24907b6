-- ===== src/Guards/Laws.antt =====
-- What stands behind the guards is reached only by those who may.
use elysia_panel.Prelude.{
  String, true, false, ◌≡◌, refl, Option, none, some, List, [], ◌∷◌, ◌⊎◌, inl, inr, ◌==◌, includes,
  find, find_passes, same, same_iff, subst, arith, ap, ◌∙◌, Bool-cases, Option-cases,
}
use elysia_panel.World.Schema.{User, UserStatus, ApiKey}
use elysia_panel.World.State.{World, Env}
use elysia_panel.World.Action.{
  Action, Exception, Result, ok, err, Result-cases, forbidden, unauthorized,
}
use elysia_panel.Identity.{AuthenticatedUser, permissions_of, authenticated}
use elysia_panel.ApiKeys.{validate_and_get_user}
use elysia_panel.ApiKeys.Laws.{validate-ok, touched}
use elysia_panel.Guards.{
  HttpRequest, is_metrics, is_docs, api_key_token, check_status, validate, has_all,
  permissions_guard, passport, authenticate_with, authenticate, jwt_auth_guard, guarded,
}

-- The user is a stored one who is active, and has no permission but the present ones of the role.
abbrev pub IsVouched : AuthenticatedUser → World → Type 0
IsVouched user w =
    (u : User) × (find (λ v. v.id == user.id) w.users ≡ some u)
    × (u.status ≡ UserStatus.active)
    × ((p : String)
        → includes user.permissions p ≡ true
        → (includes (permissions_of u w) "*" ≡ true) ⊎ (includes (permissions_of u w) p ≡ true))

-- The user holds the wildcard or each permission that is required.
abbrev pub IsPermitted : List String → AuthenticatedUser → Type 0
IsPermitted required user =
    (includes user.permissions "*" ≡ true)
    ⊎ ((p : String) → includes required p ≡ true → includes user.permissions p ≡ true)

held_of_all :
    (required : List String) (user : AuthenticatedUser) (p : String)
    → has_all required user ≡ true
    → includes required p ≡ true
    → includes user.permissions p ≡ true
held_of_all [] user p h k = absurd (cc)
held_of_all (q ∷ qs) user p h k = elim (Bool-cases (same q p)) [
  | inl here ↦
      subst (λ x. includes user.permissions x ≡ true) ((same_iff q p).0 here) (ground arith)
  | inr other ↦ ground (arith, held_of_all qs user p)
]

-- The state with other API keys.
abbrev pub used : World → List ApiKey → World
used w keys = record w { api_keys = keys }

-- The API keys as they were, or with the time of the use of one of them.
abbrev pub IsNoted : World → List ApiKey → Type 0
IsNoted w keys = (keys ≡ w.api_keys) ⊎ ((key : ApiKey) × (keys ≡ touched key w))

-- How an action that authenticates ends.
abbrev IsOutcome : Action AuthenticatedUser → World → Type 0
IsOutcome m w =
    ((e : Exception) × (m w ≡ (err e, w)))
    ⊎ ((user : AuthenticatedUser) × (keys : List ApiKey) × IsNoted w keys
        × IsVouched user w
        × (m w ≡ (ok user, used w keys)))

module _ (env : Env) (raw : String) (w : World) where
  -- A key that is refused leaves no trace, and one that is accepted only the time of its use.
  key-err :
      (e : Exception)
      → (validate_and_get_user env raw w).0 ≡ err e
      → validate_and_get_user env raw w ≡ (err e, w)
  unfolding validate_and_get_user
  key-err e h = ground arith

  key-ok :
      (user : AuthenticatedUser) (w' : World)
      → (validate_and_get_user env raw w).0 ≡ ok user
      → (validate_and_get_user env raw w).1 ≡ w'
      → validate_and_get_user env raw w ≡ (ok user, w')
  key-ok user w' h left = ground (arith, h, left)

  key-IsOutcome : IsOutcome (validate_and_get_user env raw) w
  key-IsOutcome = elim (Result-cases (validate_and_get_user env raw w).0) [
    | inr (e, h) ↦ inl (e, key-err e h)
    | inl (user, h) ↦
        let (key, owner, _, owned, _, active, its, granted, left) = validate-ok env raw w user h in
        let named : owner.id ≡ key.user_id =
          ground (arith, find_passes (λ u. u.id == key.user_id) w.users owner owned) in
        inr (
          user,
          touched key w,
          inr (key, refl),
          (
            owner,
            ap (λ k. find (λ v. v.id == k) w.users) (its ∙ named) ∙ owned,
            active,
            λ p held. ((granted p).0 held).1,
          ),
          key-ok user (used w (touched key w)) h left,
        )
  ]

check_status_cases :
    (s : UserStatus) (w : World)
    → ((s ≡ UserStatus.active) × (check_status s w ≡ (ok tt, w)))
      ⊎ ((e : Exception) × (check_status s w ≡ (err e, w)))
check_status_cases UserStatus.active w = inl (refl, refl)
check_status_cases UserStatus.suspended w = inr (unauthorized "Compte suspendu", refl)
check_status_cases UserStatus.banned w = inr (unauthorized "Compte invalide ou banni", refl)

module _ (env : Env) (request : HttpRequest) (w : World) where
  passport-IsOutcome : IsOutcome (passport env request) w
  unfolding passport validate
  passport-IsOutcome = elim (Option-cases (env.passport_jwt request.authorization w.now)) [
    | inl unreadable ↦ inl (unauthorized "Unauthorized", ground arith)
    | inr (payload, e) ↦ elim (Option-cases (find (λ u. u.id == payload.sub) w.users)) [
      | inl gone ↦ inl (unauthorized "Compte invalide ou banni", ground arith)
      | inr (u, e') ↦ elim (check_status_cases u.status w) [
        | inr (x, closed) ↦ inl (x, ground (arith, closed))
        | inl (active, passed) ↦
            let named : u.id ≡ payload.sub =
              ground (arith, find_passes (λ u. u.id == payload.sub) w.users u e') in
            inr (
              authenticated u (permissions_of u w) payload.impersonated_by,
              w.api_keys,
              inl refl,
              (u, ap (λ k. find (λ v. v.id == k) w.users) named ∙ e', active, λ p held. inr held),
              ground (arith, passed),
            )
      ]
    ]
  ]

  authenticate_with-IsOutcome :
      (token : Option String) → IsOutcome (authenticate_with env token request) w
  unfolding authenticate_with
  authenticate_with-IsOutcome none = passport-IsOutcome
  authenticate_with-IsOutcome (some token) = key-IsOutcome env token w

  authenticate-IsOutcome : IsOutcome (authenticate env request) w
  unfolding authenticate
  authenticate-IsOutcome = authenticate_with-IsOutcome (api_key_token request.authorization)

-- How a request that has to be authenticated ends: it is refused before the handler runs, or the
-- handler runs for a user who is vouched for and permitted.
abbrev pub IsGuarded :
    {A : Type 0}
    → List String
    → (Option AuthenticatedUser → Action A)
    → Result A × World
    → World
    → Type 0
IsGuarded required handler outcome w =
    ((e : Exception) × (keys : List ApiKey) × IsNoted w keys × (outcome ≡ (err e, used w keys)))
    ⊎ ((user : AuthenticatedUser) × (keys : List ApiKey) × IsNoted w keys
        × IsVouched user w
        × IsPermitted required user
        × (outcome ≡ handler (some user) (used w keys)))

pub permissions_cases :
    (required : List String) (user : AuthenticatedUser) (w : World)
    → (IsPermitted required user × (permissions_guard required (some user) w ≡ (ok tt, w)))
      ⊎ ((e : Exception) × (permissions_guard required (some user) w ≡ (err e, w)))
unfolding permissions_guard
permissions_cases [] user w = inl (inr (λ p h. absurd (cc)), refl)
permissions_cases (p0 ∷ ps) user w = elim (Bool-cases (includes user.permissions "*")) [
  | inl star ↦ inl (inl star, ground arith)
  | inr plain ↦ elim (Bool-cases (has_all (p0 ∷ ps) user)) [
    | inl all ↦ inl (inr (λ p. held_of_all (p0 ∷ ps) user p all), ground arith)
    | inr lacking ↦ inr (forbidden "Permissions manquantes", ground arith)
  ]
]

module _ {A : Type 0} (env : Env) (required : List String)
    (handler : Option AuthenticatedUser → Action A) (request : HttpRequest) (w : World) where
  -- A request to a handler that is not public, and whose URL is neither that of the metrics nor of
  -- the documentation, is refused, or runs the handler for a stored, active user, whose permissions
  -- are within the present ones of the role and include the wildcard or each that is required.
  -- Before the handler nothing is written but the time of the use of one API key.
  pub guarded_outcome :
      is_metrics request.url ≡ false
      → is_docs request.url ≡ false
      → IsGuarded required handler (guarded env false required handler request w) w
  unfolding guarded jwt_auth_guard
  guarded_outcome other_url no_docs = elim (authenticate-IsOutcome env request w) [
    | inl (e, refused) ↦ inl (e, w.api_keys, inl refl, ground (arith, refused))
    | inr (user, keys, noted, vouched, named) ↦
        elim (permissions_cases required user (used w keys)) [
          | inr (e, lacking) ↦ inl (e, keys, noted, ground (arith, named, lacking))
          | inl (permitted, passed) ↦
              inr (user, keys, noted, vouched, permitted, ground (arith, named, passed))
        ]
  ]
