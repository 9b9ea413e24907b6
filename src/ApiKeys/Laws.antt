-- ===== src/ApiKeys/Laws.antt =====
-- A key grants what it was made for and its owner still has, and nothing else.
use elysia_panel.Prelude.{
  String, Bool, true, false, ◌≡◌, ◌⊎◌, ◌↔◌, ℕ, ◌≤◌, Option, none, sym, ap, ◌∙◌, update_rows, tests,
  refl, subst, inl, inr, some, List, [], ◌∷◌, ◌==◌, same, same_iff, includes, find, select, arith,
  Bool-cases, Option-cases,
}
use elysia_panel.World.Schema.{ApiKey, User, UserStatus}
use elysia_panel.World.State.{World, Env}
use elysia_panel.World.Action.{ok}
use elysia_panel.Identity.{AuthenticatedUser, permissions_of}
use elysia_panel.ApiKeys.{
  is_active, is_empty, is_expired, not_granted, effective_scopes, check_scopes,
  validate_and_get_user,
}

-- A key that is kept by a filter was in the list and passes the filter.
includes-select :
    (p : String → Bool) (xs : List String) (s : String)
    → includes (select p xs) s ≡ true
    → (includes xs s ≡ true) × (p s ≡ true)
includes-select p [] s h = absurd (cc)
includes-select p (x ∷ xs) s h = elim (Bool-cases (p x)) [
  | inl kept ↦ elim (Bool-cases (same x s)) [
    | inl here ↦ (ground arith, subst (λ y. p y ≡ true) ((same_iff x s).0 here) kept)
    | inr other ↦
        let (old, passed) = includes-select p xs s (ground arith) in (ground arith, passed)
  ]
  | inr dropped ↦
      let (old, passed) = includes-select p xs s (ground arith) in (ground arith, passed)
]

-- Every permission that a key grants is one of its scopes, and one that its owner has, unless the
-- owner holds the wildcard.
pub effective_scopes_within :
    (permissions scopes : List String) (s : String)
    → includes (effective_scopes permissions scopes) s ≡ true
    → (includes scopes s ≡ true)
      × ((includes permissions "*" ≡ true) ⊎ (includes permissions s ≡ true))
unfolding effective_scopes
effective_scopes_within permissions scopes s h = elim (Bool-cases (includes permissions "*")) [
  | inl wildcard ↦ (ground arith, inl wildcard)
  | inr plain ↦
      let (scope, granted) = includes-select (includes permissions) scopes s (ground arith) in
      (scope, inr granted)
]

select-all :
    (permissions scopes : List String)
    → is_empty (not_granted permissions scopes) ≡ true
    → select (includes permissions) scopes ≡ scopes
select-all permissions [] h = refl
select-all permissions (x ∷ xs) h = ground (arith, select-all permissions xs)

-- Scopes that pass the checks of the key's creation are effective in full while its owner keeps the
-- same permissions.
pub check_scopes_effective :
    (actor : AuthenticatedUser) (scopes : List String) (w : World)
    → (check_scopes actor scopes w).0 ≡ ok tt
    → effective_scopes actor.permissions scopes ≡ scopes
unfolding check_scopes effective_scopes
check_scopes_effective actor scopes w h = ground (arith, select-all actor.permissions scopes)

includes-select_of :
    (p : String → Bool) (xs : List String) (s : String)
    → includes xs s ≡ true
    → p s ≡ true
    → includes (select p xs) s ≡ true
includes-select_of p [] s h k = absurd (cc)
includes-select_of p (x ∷ xs) s h k = elim (Bool-cases (same x s)) [
  | inl here ↦
      let kept : p x ≡ true = subst (λ y. p y ≡ true) (sym ((same_iff x s).0 here)) k in
      ground (arith, kept)
  | inr other ↦ ground (arith, includes-select_of p xs s)
]

-- Every scope that the owner's permissions cover is granted.
effective_scopes_covers :
    (permissions scopes : List String) (s : String)
    → includes scopes s ≡ true
    → (includes permissions "*" ≡ true) ⊎ (includes permissions s ≡ true)
    → includes (effective_scopes permissions scopes) s ≡ true
unfolding effective_scopes
effective_scopes_covers permissions scopes s h k = elim (Bool-cases (includes permissions "*")) [
  | inl wildcard ↦ ground arith
  | inr plain ↦
      let held : includes permissions s ≡ true = ground arith in
      ground (arith, includes-select_of (includes permissions) scopes s h held)
]

pub active_of_test : (s : UserStatus) → is_active s ≡ true → s ≡ UserStatus.active
active_of_test UserStatus.active h = refl
active_of_test UserStatus.suspended h = absurd (cc)
active_of_test UserStatus.banned h = absurd (cc)

live_of_test : (o : Option ℕ) (now at : ℕ) → is_expired o now ≡ false → o ≡ some at → now ≤ at
live_of_test none now at h e = absurd (cc)
live_of_test (some t) now at h e = let its : t ≡ at = cc in grind tests

-- A permission is one of the key's scopes, and the owner holds it or the wildcard.
abbrev pub IsCovered : List String → List String → String → Type 0
IsCovered permissions scopes p =
    (includes scopes p ≡ true)
    × ((includes permissions "*" ≡ true) ⊎ (includes permissions p ≡ true))

-- The keys with the time of the use of one of them.
abbrev pub touched : ApiKey → World → List ApiKey
touched key w =
    update_rows (λ k. k.id == key.id) (λ k. record k { last_used_at = some w.now }) w.api_keys

module _ (env : Env) (raw : String) (w : World) where
  -- What the code has seen of a key that authenticates.
  validate-parts :
      (user : AuthenticatedUser)
      → (validate_and_get_user env raw w).0 ≡ ok user
      → (key : ApiKey) × (owner : User) × (find (λ k. same k.key_hash (env.sha256 raw)) w.api_keys
          ≡ some key)
        × (find (λ u. u.id == key.user_id) w.users ≡ some owner)
        × (is_expired key.expires_at w.now ≡ false)
        × (is_active owner.status ≡ true)
        × (user.id ≡ owner.id)
        × (user.permissions ≡ effective_scopes (permissions_of owner w) key.scopes)
        × ((validate_and_get_user env raw w).1 ≡ record w { api_keys = touched key w })
  unfolding validate_and_get_user
  validate-parts user h =
      elim (Option-cases (find (λ k. same k.key_hash (env.sha256 raw)) w.api_keys)) [
        | inl missing ↦ absurd (ground arith)
        | inr (key, e) ↦ elim (Option-cases (find (λ u. u.id == key.user_id) w.users)) [
          | inl orphan ↦ absurd (ground arith)
          | inr (owner, e') ↦ (
            key,
            owner,
            e,
            e',
            ground arith,
            ground arith,
            ground arith,
            ground arith,
            ground arith,
          )
        ]
      ]

  -- A key that authenticates is stored under its hash, is not past its expiry, and belongs to an
  -- active user, as whom it acts with exactly those of its scopes that the user's present
  -- permissions cover. Nothing is written but the time of the key's use.
  pub validate-ok :
      (user : AuthenticatedUser)
      → (validate_and_get_user env raw w).0 ≡ ok user
      → (key : ApiKey) × (owner : User) × (find (λ k. same k.key_hash (env.sha256 raw)) w.api_keys
          ≡ some key)
        × (find (λ u. u.id == key.user_id) w.users ≡ some owner)
        × ((at : ℕ) → key.expires_at ≡ some at → w.now ≤ at)
        × (owner.status ≡ UserStatus.active)
        × (user.id ≡ owner.id)
        × ((p : String)
            → (includes user.permissions p ≡ true)
              ↔ IsCovered (permissions_of owner w) key.scopes p)
        × ((validate_and_get_user env raw w).1 ≡ record w { api_keys = touched key w })
  validate-ok user h =
      let (key, owner, e, e', live, active, its, granted, left) = validate-parts user h in
      (
        key,
        owner,
        e,
        e',
        (λ at. live_of_test key.expires_at w.now at live),
        active_of_test owner.status active,
        its,
        (λ p. (
          (λ held.
              effective_scopes_within (permissions_of owner w) key.scopes p
                (ap (λ ps. includes ps p) (sym granted) ∙ held)),
          (λ c.
              ap (λ ps. includes ps p) granted
              ∙ effective_scopes_covers (permissions_of owner w) key.scopes p c.0 c.1),
        )),
        left,
      )
