-- ===== src/Auth/OAuth/Laws.antt =====
-- Whose account a login by another provider opens.
use mathlib.Core.Option
use elysia_panel.Prelude.{
  String, Bool, true, ◌≡◌, refl, sym, ap, ◌∙◌, inl, inr, Option, none, some, List, [], ◌∷◌, ◌||◌,
  same, same_refl, find, any, update_rows, arith, Bool-cases, Option-cases, find-append_none,
  find-update_kept, find_passes, false, ◌==◌,
}
use elysia_panel.World.Schema.{RowId, User}
use elysia_panel.World.State.{World, Env}
use elysia_panel.World.Action.{Exception, ok, err, internal}
use elysia_panel.Users.{new_user}
use elysia_panel.Auth.Tokens.{issue_token_pair}
use elysia_panel.Auth.TwoFactor.{logged_in, login, open_session}
use elysia_panel.Auth.OAuth.{
  Provider, OAuthProfile, provider_field, oauth_callback, linked, holds_id, oauth_username,
  link_or_create, validate_oauth_login,
}

linked-holds_id :
    (provider : Provider) (id : String) (u : User)
    → holds_id provider id (linked provider id u) ≡ true
linked-holds_id Provider.discord id u = same_refl id
linked-holds_id Provider.google id u = same_refl id
linked-holds_id Provider.github id u = same_refl id

-- A search that found nothing finds the first of the rows that are rewritten to pass it.
find-update_first :
    {A : Type 0} (p q : A → Bool) (f : A → A) (xs : List A)
    → ((x : A) → q (f x) ≡ true)
    → find q xs ≡ none
    → (x : A) → find p xs ≡ some x
    → find q (update_rows p f xs) ≡ some (f x)
find-update_first p q f [] h e x e' = absurd (cc)
find-update_first p q f (y ∷ xs) h e x e' = elim (Bool-cases (p y)) [
  | inl here ↦ ground (arith, here, e', h y)
  | inr later ↦ ground (
    arith,
    later,
    e,
    find-update_first p q f xs h (ground (arith, e)) x (ground (arith, later, e')),
  )
]

module _ (env : Env) (p : OAuthProfile) (w : World) where
  abbrev by_id : User → Bool
  by_id = holds_id p.provider p.provider_id

  abbrev client_id : Option RowId
  client_id = Option.map (λ r. r.id) (find (λ r. same r.name "client") w.roles)

  abbrev clashes : String → User → Bool
  clashes address u = same u.email address || same u.username (oauth_username p)

  abbrev plain_account : String → User
  plain_account address = new_user (env.uuid w.drawn) address (oauth_username p) none client_id

  abbrev new_account : String → User
  new_account address = linked p.provider p.provider_id (plain_account address)

  validate-stored :
      (u : User) → find by_id w.users ≡ some u → validate_oauth_login env p w ≡ (ok u, w)
  unfolding validate_oauth_login
  validate-stored u e = ground (arith, e)

  validate-missing :
      find by_id w.users ≡ none
      → p.email ≡ none
      → (e : Exception) × (validate_oauth_login env p w ≡ (err e, w))
  unfolding validate_oauth_login
  validate-missing e none_given =
      (internal "Argument `email` is missing.", ground (arith, e, none_given))

  validate-linked :
      (address : String)
      → find by_id w.users ≡ none
      → p.email ≡ some address
      → validate_oauth_login env p w ≡ link_or_create env p address client_id w
  unfolding validate_oauth_login
  validate-linked address e given = ground (arith, e, given)

  -- What a link or a new account leaves under the identifier.
  link_or_create-found :
      (address : String) (u : User)
      → find by_id w.users ≡ none
      → (link_or_create env p address client_id w).0 ≡ ok u
      → find by_id (link_or_create env p address client_id w).1.users ≡ some u
  unfolding link_or_create
  link_or_create-found address u e h =
      elim (Option-cases (find (λ x. same x.email address) w.users)) [
        | inr (x, found) ↦ ground (
          arith,
          h,
          found,
          find-update_first (λ x. same x.email address) by_id (linked p.provider p.provider_id)
              w.users (linked-holds_id p.provider p.provider_id) e x found,
        )
        | inl free ↦ elim (Bool-cases (any (clashes address) w.users)) [
          | inl taken ↦ absurd (ground (arith, h, free, taken))
          | inr fresh ↦ ground (
            arith,
            h,
            free,
            fresh,
            find-append_none by_id w.users (new_account address ∷ []) e,
            linked-holds_id p.provider p.provider_id (plain_account address),
          )
        ]
      ]

  -- However the account was come by, the identifier finds it afterwards.
  validate-found :
      (u : User)
      → (validate_oauth_login env p w).0 ≡ ok u
      → find by_id (validate_oauth_login env p w).1.users ≡ some u
  validate-found u h = elim (Option-cases (find by_id w.users)) [
    | inr (x, e) ↦ ground (arith, h, validate-stored x e, e)
    | inl e ↦ elim (Option-cases p.email) [
      | inl missing ↦
          let (x, refused) = validate-missing e missing in absurd (ground (arith, h, refused))
      | inr (address, given) ↦
          let same_run : validate_oauth_login env p w ≡ link_or_create env p address client_id w =
            validate-linked address e given in
          ap (λ r. find by_id r.1.users) same_run
          ∙ link_or_create-found address u e (sym (ap (λ r. r.0) same_run) ∙ h)
    ]
  ]

  -- An account of that address is linked to the profile.
  validate_oauth_takes_over :
      (address : String) (x : User)
      → find by_id w.users ≡ none
      → p.email ≡ some address
      → find (λ u. same u.email address) w.users ≡ some x
      → validate_oauth_login env p w ≡ (
        ok (linked p.provider p.provider_id x),
        record w {
          users = update_rows (λ u. same u.email address) (linked p.provider p.provider_id) w.users;
        },
      )
  unfolding link_or_create
  validate_oauth_takes_over address x e given found =
      validate-linked address e given ∙ ground (arith, found)

-- The account with the identifier of the profile, and with all that signs its owner in as before.
abbrev pub IsTaken : Provider → String → User → User → Type 0
IsTaken provider id x y =
    (provider_field provider y ≡ some id)
    × (y.id ≡ x.id)
    × (y.email ≡ x.email)
    × (y.username ≡ x.username)
    × (y.password_hash ≡ x.password_hash)
    × (y.status ≡ x.status)
    × (y.two_factor_enabled ≡ x.two_factor_enabled)
    × (y.two_factor_secret ≡ x.two_factor_secret)
    × (y.role_id ≡ x.role_id)

linked-IsTaken :
    (provider : Provider) (id : String) (x : User) → IsTaken provider id x (linked provider id x)
linked-IsTaken Provider.discord id x = (refl, refl, refl, refl, refl, refl, refl, refl, refl)
linked-IsTaken Provider.google id x = (refl, refl, refl, refl, refl, refl, refl, refl, refl)
linked-IsTaken Provider.github id x = (refl, refl, refl, refl, refl, refl, refl, refl, refl)

module _ (env : Env) (p : OAuthProfile) (ip : Option String) (w : World) where
  abbrev taken : User → User
  taken x = linked p.provider p.provider_id x

  abbrev by_address : String → World
  by_address address = record w { users = update_rows (λ u. same u.email address) taken w.users }

  login_as :
      (address : String) (x : User)
      → find (λ u. u.id == x.id) w.users ≡ some x
      → same x.email address ≡ true
      → x.two_factor_enabled ≡ false
      → any (λ t. same t.token_hash (env.sha256 (env.random_hex 48 w.drawn))) w.refresh_tokens
        ≡ false
      → let (result, w') = login env (taken x).id none ip none (by_address address) in
        (result
          ≡ ok (
              logged_in (record {
                access_token = env.jwt_sign x.id none w.now;
                refresh_token = env.random_hex 48 w.drawn;
              })))
        × (find (λ u. u.id == x.id) w'.users ≡ some (taken x))
  unfolding login open_session issue_token_pair
  login_as address x stored at_address single fresh =
      let (_, its, _, _, _, _, plain, _, _) = linked-IsTaken p.provider p.provider_id x in
      let left : find (λ u. u.id == x.id) (by_address address).users ≡ some (taken x) = ground (
        arith,
        stored,
        at_address,
        find-update_kept (λ (u : User). same u.email address) (λ u. u.id == x.id) taken w.users
            (λ u. ap (λ k. k == x.id) (linked-IsTaken p.provider p.provider_id u).1),
      ) in
      (
        ground (arith, left, its, plain, single, fresh),
        ground (arith, left, its, plain, single, fresh),
      )

  -- Whoever comes back from a provider with a profile that no account is linked to, and with the
  -- address of a stored account without two-factor authentication, gets a session of that account.
  -- Neither a password nor the account's status is looked at: a banned or suspended account gets
  -- one as well. The account is linked to the profile, and its password and status stay. Its identifier
  -- must be its own, and the hash of the new refresh token new.
  pub oauth_callback_takes_over :
      (address : String) (x : User)
      → find (holds_id p.provider p.provider_id) w.users ≡ none
      → p.email ≡ some address
      → find (λ u. same u.email address) w.users ≡ some x
      → find (λ u. u.id == x.id) w.users ≡ some x
      → x.two_factor_enabled ≡ false
      → any (λ t. same t.token_hash (env.sha256 (env.random_hex 48 w.drawn))) w.refresh_tokens
        ≡ false
      → let (result, w') = oauth_callback env p ip w in
        (result
          ≡ ok (
              logged_in (record {
                access_token = env.jwt_sign x.id none w.now;
                refresh_token = env.random_hex 48 w.drawn;
              })))
        × ((y : User) × (find (λ u. u.id == x.id) w'.users ≡ some y)
            × IsTaken p.provider p.provider_id x y)
  unfolding oauth_callback
  oauth_callback_takes_over address x unlinked given found stored single fresh =
      let run = validate_oauth_takes_over env p w address x unlinked given found in
      let at_address : same x.email address ≡ true =
        find_passes (λ u. same u.email address) w.users x found in
      let (session, left) = login_as address x stored at_address single fresh in
      (
        ground (arith, run, session),
        (taken x, ground (arith, run, left), linked-IsTaken p.provider p.provider_id x),
      )

-- A login by another provider that succeeds opens the same account when it is repeated, and the
-- repetition writes nothing.
pub validate_oauth_again :
    (env : Env) (p : OAuthProfile) (w : World) (u : User)
    → (validate_oauth_login env p w).0 ≡ ok u
    → validate_oauth_login env p (validate_oauth_login env p w).1
      ≡ (ok u, (validate_oauth_login env p w).1)
validate_oauth_again env p w u h =
    validate-stored env p (validate_oauth_login env p w).1 u (validate-found env p w u h)
