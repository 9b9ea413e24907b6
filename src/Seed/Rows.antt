-- ===== src/Seed/Rows.antt =====
-- The upserts of the seed that leave a row as it is when it is there: roles, the system account and
-- templates.
use elysia_panel.Prelude.{
  String, Bool, true, false, ◌≡◌, refl, sym, subst, ◌⊎◌, none, some, List, [], ◌∷◌, ◌==◌, ◌||◌,
  same, same_refl, find, any, update_rows, arith, Bool-cases, Option-cases, inl, inr, find-any,
  find-append_none, find-append_some,
}
use elysia_panel.World.Schema.{RowId, User, Role, ServerTemplate}
use elysia_panel.World.State.{World, Env}
use elysia_panel.World.Action.{ok, err, unique_violation}
use elysia_panel.Users.{new_user}
use elysia_panel.Auth.Accounts.{system_user_id}
use elysia_panel.Seed.{upsert_role, upsert_template, upsert_system_user}
use elysia_panel.Seed.Catalog.{TemplateSeed}
use elysia_panel.Seed.Put.{put, put-found, put-stays, update_rows-same, All-of_every}

kept_rows : {A : Type 0} (p : A → Bool) (xs : List A) → update_rows p (λ x. x) xs ≡ xs
kept_rows p xs = update_rows-same p (λ x. x) xs (All-of_every _ xs (λ x _. refl))

abbrev pub named : String → Role → Bool
named name r = same r.name name

module _ (env : Env) (name description : String) (w : World) where
  pub upsert_role-settled :
      (r : Role)
      → find (named name) w.roles ≡ some r
      → upsert_role env name description w ≡ (ok r, w)
  unfolding upsert_role
  upsert_role-settled r e = ground (arith, e, kept_rows (named name) w.roles)

  abbrev new_role : Role
  new_role = record {
    id = env.uuid w.drawn;
    name = name;
    description = some description;
    is_system = true;
  }

  -- The role is there afterwards, and the permissions are as they were.
  pub upsert_role-found :
      (r : Role) × ((upsert_role env name description w).0 ≡ ok r)
      × (find (named name) (upsert_role env name description w).1.roles ≡ some r)
      × ((upsert_role env name description w).1.permissions ≡ w.permissions)
  unfolding upsert_role
  upsert_role-found = elim (Option-cases (find (named name) w.roles)) [
    | inl e ↦
        let fresh : any (named name) w.roles ≡ false = find-any (named name) w.roles e in
        (
          new_role,
          ground (arith, e, fresh),
          ground (
            arith,
            e,
            fresh,
            find-append_none (named name) w.roles (new_role ∷ []) e,
            same_refl name,
          ),
          ground (arith, e, fresh),
        )
    | inr (r, e) ↦
        (r, ground (arith, e), ground (arith, e, kept_rows (named name) w.roles), ground (arith, e))
  ]

  pub upsert_role-stays :
      (other : String) (r : Role)
      → find (named other) w.roles ≡ some r
      → find (named other) (upsert_role env name description w).1.roles ≡ some r
  unfolding upsert_role
  upsert_role-stays other r e' = elim (Option-cases (find (named name) w.roles)) [
    | inl e ↦ ground (
      arith,
      e,
      find-any (named name) w.roles e,
      find-append_some (named other) w.roles (new_role ∷ []) r e',
    )
    | inr (s, e) ↦ ground (arith, e, kept_rows (named name) w.roles)
  ]

abbrev pub is_system_user : User → Bool
is_system_user u = u.id == system_user_id

module _ (admin_id : RowId) (w : World) where
  pub upsert_system_user-settled :
      (u : User) → find is_system_user w.users ≡ some u → upsert_system_user admin_id w ≡ (ok u, w)
  unfolding upsert_system_user
  upsert_system_user-settled u e = ground (arith, e, kept_rows is_system_user w.users)

  abbrev system_user : User
  system_user = new_user system_user_id "system@elysia.local" "system" none (some admin_id)

  -- A row of another account with the address or the name stops it. Otherwise the account is there
  -- afterwards, and the other tables are as they were.
  pub upsert_system_user-found :
      (upsert_system_user admin_id w ≡ (err unique_violation, w))
      ⊎ ((u : User) × ((upsert_system_user admin_id w).0 ≡ ok u)
          × (find is_system_user (upsert_system_user admin_id w).1.users ≡ some u)
          × ((upsert_system_user admin_id w).1.permissions ≡ w.permissions)
          × ((upsert_system_user admin_id w).1.roles ≡ w.roles)
          × ((upsert_system_user admin_id w).1.role_permissions ≡ w.role_permissions))
  unfolding upsert_system_user
  upsert_system_user-found = elim (Option-cases (find is_system_user w.users)) [
    | inr (u, e) ↦ inr (
      u,
      ground (arith, e),
      ground (arith, e, kept_rows is_system_user w.users),
      ground (arith, e),
      ground (arith, e),
      ground (arith, e),
    )
    | inl e ↦
        elim (Bool-cases (
          any
            (λ u.
              u.id == system_user_id
              || same u.email "system@elysia.local"
              || same u.username "system")
            w.users)) [
              | inl taken ↦ inl (ground (arith, e, taken))
              | inr free ↦ inr (
                system_user,
                ground (arith, e, free),
                ground
                    (arith, e, free, find-append_none is_system_user w.users (system_user ∷ []) e),
                ground (arith, e, free),
                ground (arith, e, free),
                ground (arith, e, free),
              )
            ]
  ]

abbrev called : String → ServerTemplate → Bool
called name t = same t.name name

-- A template stands under the name.
abbrev pub HasTemplate : TemplateSeed → List ServerTemplate → Type 0
HasTemplate t rows = (x : ServerTemplate) × (find (called t.name) rows ≡ some x)

module _ (env : Env) (t : TemplateSeed) (w : World) where
  pub upsert_template-settled : HasTemplate t w.templates → upsert_template env t w ≡ (ok tt, w)
  unfolding upsert_template
  upsert_template-settled (x, e) = ground (arith, e, kept_rows (called t.name) w.templates)

  abbrev new_template : ServerTemplate
  new_template = record {
    id = env.uuid w.drawn;
    name = t.name;
    game_type = t.game_type;
    description = some t.description;
    docker_image = t.docker_image;
    startup_command = t.startup_command;
    install_script = none;
    default_variables = t.default_variables;
    min_memory_mb = t.min_memory_mb;
    is_public = true;
  }

  pub upsert_template-ok : (upsert_template env t w).0 ≡ ok tt
  unfolding upsert_template
  upsert_template-ok = elim (Option-cases (find (called t.name) w.templates)) [
    | inl e ↦ ground (arith, e, find-any (called t.name) w.templates e)
    | inr (x, e) ↦ ground (arith, e)
  ]

  upsert_template_rows :
      ((upsert_template env t w).1.templates
        ≡ put (called t.name) (λ x. x) new_template w.templates)
      × ((upsert_template env t w).1.permissions ≡ w.permissions)
      × ((upsert_template env t w).1.roles ≡ w.roles)
      × ((upsert_template env t w).1.role_permissions ≡ w.role_permissions)
      × ((upsert_template env t w).1.users ≡ w.users)
  unfolding upsert_template put
  upsert_template_rows = elim (Option-cases (find (called t.name) w.templates)) [
    | inl e ↦
        let fresh : any (called t.name) w.templates ≡ false =
          find-any (called t.name) w.templates e in
        (
          ground (arith, e, fresh),
          ground (arith, e, fresh),
          ground (arith, e, fresh),
          ground (arith, e, fresh),
          ground (arith, e, fresh),
        )
    | inr (x, e) ↦ (
      ground (arith, e),
      ground (arith, e),
      ground (arith, e),
      ground (arith, e),
      ground (arith, e),
    )
  ]

  pub upsert_template-HasTemplate : HasTemplate t (upsert_template env t w).1.templates
  upsert_template-HasTemplate =
      subst (HasTemplate t) (sym upsert_template_rows.0)
        (put-found (called t.name) (λ x. x) new_template w.templates (same_refl t.name) (λ y. refl))

  pub upsert_template-stays :
      (other : TemplateSeed)
      → HasTemplate other w.templates
      → HasTemplate other (upsert_template env t w).1.templates
  upsert_template-stays other (x, e) = subst (HasTemplate other) (sym upsert_template_rows.0) (
      put-stays (called t.name) (λ x. x) new_template w.templates (called other.name) x (λ y. refl)
        e)

  -- The tables that the earlier steps settled.
  pub upsert_template-keeps :
      (P : World → Type 0)
      → ((w' : World)
          → w'.permissions ≡ w.permissions
          → w'.roles ≡ w.roles
          → w'.role_permissions ≡ w.role_permissions
          → w'.users ≡ w.users
          → P w')
      → P (upsert_template env t w).1
  upsert_template-keeps P k =
      let (_, ps, rs, rps, us) = upsert_template_rows in k (upsert_template env t w).1 ps rs rps us
