-- ===== src/Seed/Client.antt =====
-- What the client's role may do after a seed: exactly what CLIENT_PERMISSIONS lists.
use elysia_panel.Prelude.{
  String, Bool, true, false, Option, ◌≡◌, refl, sym, ap, subst, ◌∙◌, some, List, [], ◌∷◌, ◌++◌,
  ◌==◌, ◌||◌, ◌&&◌, same, same_iff, same_refl, includes, find, any, any_of_found, find_passes, all,
  select, delete_rows, map, All, All-select, arith, Bool-cases, Option-cases, inl, inr,
  if◌then◌else◌,
}
use elysia_panel.World.Schema.{RowId, User, Role, Permission, RolePermission}
use elysia_panel.World.State.{World, Env}
use elysia_panel.World.Action.{ok, err, forbidden}
use elysia_panel.Identity.{
  permission_keys, permissions_for_role, permissions_of, authenticated, role_of,
}
use elysia_panel.Guards.{permissions_guard}
use elysia_panel.Roles.{rows_for}
use elysia_panel.Roles.Laws.{
  IsStored, permission_keys-append, permission_keys-deleted, permission_keys-rows_for,
}
use elysia_panel.Seed.{SeedReport, insert_missing, seed}
use elysia_panel.Seed.Catalog.{PermissionSeed, permission_seeds, client_permissions}
use elysia_panel.Seed.Permissions.{IsSettled}
use elysia_panel.Seed.Grants.{chosen, IsGranted}
use elysia_panel.Seed.Laws.{IsSeeded, seed-IsSeeded}

includes-append :
    (k : String) (xs ys : List String) → includes (xs ++ ys) k ≡ (includes xs k || includes ys k)
includes-append k [] ys = refl
includes-append k (x ∷ xs) ys = ground (arith, includes-append k xs ys)

module _ (id : RowId) (ps : List Permission) where
  abbrev has_row : Permission → RolePermission → Bool
  has_row p rp = rp.role_id == id && rp.permission_id == p.id

  -- A stored permission of a row that is there is among the keys.
  key_of_row :
      (p : Permission) (rows : List RolePermission)
      → IsStored ps p
      → any (has_row p) rows ≡ true
      → includes (permission_keys id ps rows) p.key ≡ true
  key_of_row p [] stored h = absurd (cc)
  key_of_row p (rp ∷ rows) stored h = elim (Bool-cases (has_row p rp)) [
    | inl here ↦
        let named : rp.permission_id ≡ p.id = ground (arith, here) in
        let found : find (λ q. q.id == rp.permission_id) ps ≡ some p =
          ap (λ n. find (λ q. q.id == n) ps) named ∙ stored in
        ground (arith, here, found, same_refl p.key)
    | inr other ↦
        let later : includes (permission_keys id ps rows) p.key ≡ true =
          key_of_row p rows stored (ground (arith, h, other)) in
        elim (Option-cases (find (λ q. q.id == rp.permission_id) ps)) [
          | inl e ↦ ground (arith, later, e)
          | inr (q, e) ↦ ground (arith, later, e)
        ]
  ]

  -- Rows that are skipped as duplicates add no key.
  includes-insert_missing :
      (k : String) (new : List Permission) (rows : List RolePermission)
      → All (IsStored ps) new
      → includes (permission_keys id ps (insert_missing rows (rows_for id new))) k
        ≡ (includes (permission_keys id ps rows) k || includes (map (λ p. p.key) new) k)
  includes-insert_missing k [] rows h = ground arith
  includes-insert_missing k (p ∷ new) rows h = elim (Bool-cases (any (has_row p) rows)) [
    | inl there ↦ ground (
      arith,
      there,
      includes-insert_missing k new rows h.1,
      same_iff p.key k,
      key_of_row p rows h.0 there,
    )
    | inr missing ↦
        let row : RolePermission = record { role_id = id; permission_id = p.id } in
        let added : permission_keys id ps (row ∷ []) ≡ p.key ∷ [] =
          permission_keys-rows_for id ps (p ∷ []) (h.0, tt) in
        ground (
          arith,
          missing,
          includes-insert_missing k new (rows ++ row ∷ []) h.1,
          permission_keys-append id ps rows (row ∷ []),
          added,
          includes-append k (permission_keys id ps rows) (p.key ∷ []),
        )
  ]

-- The keys of the rows that pass a test on keys are those that pass it and are there.
includes-select :
    (keys : List String) (k : String) (ps : List Permission)
    → includes (map (λ p. p.key) (select (λ p. includes keys p.key) ps)) k
      ≡ (includes keys k && any (λ p. same p.key k) ps)
includes-select keys k [] = ground arith
includes-select keys k (p ∷ ps) =
    ground
      (arith, includes-select keys k ps, same_iff p.key k, ap (includes keys) {x = p.key} {y = k})

and_false : (b : Bool) → (b && false) ≡ false
and_false true = refl
and_false false = refl

-- Every key of a client is one of the catalogue.
abbrev has_seed : String → List PermissionSeed → Bool
has_seed k ss = any (λ s. same s.key k) ss

has_seed_of_all :
    (k : String) (keys : List String)
    → all (λ key. has_seed key permission_seeds) keys ≡ true
    → includes keys k ≡ true
    → has_seed k permission_seeds ≡ true
has_seed_of_all k [] h e = absurd (cc)
has_seed_of_all k (key ∷ keys) h e = elim (Bool-cases (same key k)) [
  | inl here ↦
      ap (λ n. has_seed n permission_seeds) (sym ((same_iff key k).0 here)) ∙ ground (arith, h)
  | inr later ↦ has_seed_of_all k keys (ground (arith, h)) (ground (arith, e, later))
]

client_permission-has_seed :
    (k : String) → includes client_permissions k ≡ true → has_seed k permission_seeds ≡ true
client_permission-has_seed k = has_seed_of_all k client_permissions tested
  where
    tested : all (λ key. has_seed key permission_seeds) client_permissions ≡ true
    tested = unfold permission_seeds client_permissions in refl

-- What is settled for the catalogue is stored.
stored_of_seed :
    (k : String) (ss : List PermissionSeed) (ps : List Permission)
    → All (λ s. IsSettled s ps) ss
    → has_seed k ss ≡ true
    → any (λ p. same p.key k) ps ≡ true
stored_of_seed k [] ps h e = absurd (cc)
stored_of_seed k (s ∷ ss) ps h e = elim (Bool-cases (same s.key k)) [
  | inl here ↦
      let (p, found) = h.0.0 in
      subst (λ n. any (λ p. same p.key n) ps ≡ true) ((same_iff s.key k).0 here)
        (any_of_found (λ p. same p.key s.key) ps p found)
  | inr later ↦ stored_of_seed k ss ps h.1 (ground (arith, e, later))
]

module _ (env : Env) (r : SeedReport) (w : World) where
  abbrev seeded : World
  seeded = (seed env w).1

  -- The keys of the client's role after a seed are those of CLIENT_PERMISSIONS.
  client_keys :
      (c : Role) (k : String)
      → (seed env w).0 ≡ ok r
      → find (λ x. same x.name "client") seeded.roles ≡ some c
      → All (IsStored seeded.permissions) seeded.permissions
      → includes (permissions_for_role (some c) seeded) k ≡ includes client_permissions k
  unfolding permissions_for_role
  client_keys c k h found stored =
      let s : IsSeeded r seeded = seed-IsSeeded env r w h in
      let its : s.client ≡ c = cc (s.client_found, found) in
      let named : c.name ≡ "client" =
        (same_iff c.name "client").0
          (find_passes (λ x. same x.name "client") seeded.roles c found) in
      let plain : same c.name "admin" ≡ false = ap (λ n. same n "admin") named in
      let ps : List Permission = seeded.permissions in
      let granted : IsGranted c.id ps seeded.role_permissions =
        subst (λ x. IsGranted (Role.id x) ps seeded.role_permissions) its s.granted in
      let kept : List RolePermission =
        delete_rows (λ rp. rp.role_id == c.id) seeded.role_permissions in
      let there : (includes client_permissions k && any (λ p. same p.key k) ps)
          ≡ includes client_permissions k =
        elim (Bool-cases (includes client_permissions k)) [
          | inr lacking ↦ ground (arith, lacking)
          | inl held ↦ ground (
            arith,
            held,
            stored_of_seed k permission_seeds ps s.permissions_settled
                (client_permission-has_seed k held),
          )
        ] in
      rw (plain, and_false c.is_system)
        (ap (λ rows. includes (permission_keys c.id ps rows) k) granted
          ∙ includes-insert_missing c.id ps k (chosen ps) kept
              (All-select (IsStored ps) (λ p. includes client_permissions p.key) ps stored)
          ∙ ap (λ ks. includes ks k || includes (map (λ p. p.key) (chosen ps)) k)
              (permission_keys-deleted c.id ps seeded.role_permissions)
          ∙ includes-select client_permissions k ps
          ∙ there)

  -- After a seed that succeeded, the guard lets a user with the client's role pass a handler that
  -- requires one permission exactly if CLIENT_PERMISSIONS lists it. Identifiers of permissions are
  -- unique, and the user's role is the one of that name.
  pub client_may :
      (u : User) (by : Option RowId) (c : Role) (k : String)
      → (seed env w).0 ≡ ok r
      → find (λ x. same x.name "client") seeded.roles ≡ some c
      → role_of u seeded ≡ some c
      → All (IsStored seeded.permissions) seeded.permissions
      → permissions_guard (k ∷ []) (some (authenticated u (permissions_of u seeded) by)) seeded ≡ (
        (if includes client_permissions k then ok tt else err (forbidden "Permissions manquantes")),
        seeded,
      )
  unfolding permissions_guard permissions_of
  client_may u by c k h found role stored =
      let no_star : includes client_permissions "*" ≡ false = unfold client_permissions in refl in
      let keys : includes (permissions_of u seeded) k ≡ includes client_permissions k =
        ap (λ o. includes (permissions_for_role o seeded) k) role
        ∙ client_keys c k h found stored in
      let star : includes (permissions_of u seeded) "*" ≡ false =
        ap (λ o. includes (permissions_for_role o seeded) "*") role
        ∙ client_keys c "*" h found stored
        ∙ no_star in
      ground (arith, keys, star)
