-- ===== src/Seed/Laws.antt =====
-- The seed run twice.
use elysia_panel.Prelude.{
  Bool, true, false, ◌≡◌, refl, sym, ap, subst, ◌∙◌, some, List, [], ◌∷◌, ◌&&◌, not, same, find,
  any, All, arith, inl, inr,
}
use elysia_panel.World.Schema.{RowId, User, Role}
use elysia_panel.World.State.{World, Env}
use elysia_panel.World.Action.{Action, ok, for_each, ◌>>=◌, ◌>>◌, pure}
use elysia_panel.Seed.{
  SeedReport, upsert_permission, upsert_role, upsert_system_user, upsert_template, grant_client,
  seed,
}
use elysia_panel.Seed.Catalog.{PermissionSeed, permission_seeds, template_seeds}
use elysia_panel.Seed.Repeat.{
  then_ok, Distinct, Distinct-of_none, for_each-ok, for_each-keeps, for_each-settled, for_each-Done,
}
use elysia_panel.Seed.Permissions.{
  IsSettled, upsert_permission-settled, upsert_permission-ok, upsert_permission-IsSettled,
  upsert_permission-stays,
}
use elysia_panel.Seed.Rows.{
  named, is_system_user, upsert_role-settled, upsert_role-found, upsert_role-stays,
  upsert_system_user-settled, upsert_system_user-found, HasTemplate, upsert_template-settled,
  upsert_template-ok, upsert_template-HasTemplate, upsert_template-stays, upsert_template-keeps,
}
use elysia_panel.Seed.Grants.{IsGranted, grant_client-settled, grant_client-IsGranted}

abbrev clash : PermissionSeed → PermissionSeed → Bool
clash s t = same s.key t.key

-- The test that no two items are at odds.
abbrev is_distinct : List PermissionSeed → Bool
is_distinct [] = true
is_distinct (s ∷ ss) = not (any (λ t. clash t s) ss) && is_distinct ss

apart_of_any :
    (s : PermissionSeed) (ss : List PermissionSeed)
    → any (λ t. clash t s) ss ≡ false
    → All (λ t. clash t s ≡ false) ss
apart_of_any s [] h = tt
apart_of_any s (t ∷ ss) h = (ground (arith, h), apart_of_any s ss (ground (arith, h)))

Distinct-of_test : (ss : List PermissionSeed) → is_distinct ss ≡ true → Distinct clash ss
Distinct-of_test [] h = tt
Distinct-of_test (s ∷ ss) h =
    (apart_of_any s ss (ground (arith, h)), Distinct-of_test ss (ground (arith, h)))

permission_seeds-Distinct : Distinct clash permission_seeds
permission_seeds-Distinct = Distinct-of_test permission_seeds tested
  where
    tested : is_distinct permission_seeds ≡ true
    tested = unfold permission_seeds in refl

-- The state as a seed leaves it.
pub record IsSeeded (r : SeedReport) (w : World) : Type 0 where
  pub permissions_settled : All (λ s. IsSettled s w.permissions) permission_seeds
  pub admin : Role
  pub admin_found : find (named "admin") w.roles ≡ some admin
  pub client : Role
  pub client_found : find (named "client") w.roles ≡ some client
  pub reported : r ≡ record { admin_id = admin.id; client_id = client.id }
  pub granted : IsGranted client.id w.permissions w.role_permissions
  pub system_user : User
  pub system_found : find is_system_user w.users ≡ some system_user
  pub templates_there : All (λ t. HasTemplate t w.templates) template_seeds

module _ (env : Env) where
  abbrev from_templates : RowId → RowId → Action SeedReport
  from_templates admin_id client_id = do
    for_each (upsert_template env) template_seeds
    pure (record { admin_id = admin_id; client_id = client_id })

  abbrev from_grant : RowId → RowId → Action SeedReport
  from_grant admin_id client_id = do
    grant_client client_id
    upsert_system_user admin_id
    from_templates admin_id client_id

  -- A seeded state is not changed by the seed.
  seed-settled : (r : SeedReport) (w : World) → IsSeeded r w → seed env w ≡ (ok r, w)
  unfolding seed
  seed-settled r w h =
      let ps : for_each (upsert_permission env) permission_seeds w ≡ (ok tt, w) =
        for_each-settled (upsert_permission env) (λ s w'. IsSettled s w'.permissions)
          (λ s w'. upsert_permission-settled env s w') permission_seeds w h.permissions_settled in
      let ts : for_each (upsert_template env) template_seeds w ≡ (ok tt, w) =
        for_each-settled (upsert_template env) (λ t w'. HasTemplate t w'.templates)
          (λ t w'. upsert_template-settled env t w') template_seeds w h.templates_there in
      ground (
        arith,
        ps,
        ts,
        h.reported,
        upsert_role-settled env "admin" "Accès total (bypass RBAC)" w h.admin h.admin_found,
        upsert_role-settled env "client" "Utilisateur self-service" w h.client h.client_found,
        grant_client-settled h.client.id w h.granted,
        upsert_system_user-settled h.admin.id w h.system_user h.system_found,
      )

  abbrev from_client : RowId → Action SeedReport
  from_client admin_id = do
    client ← upsert_role env "client" "Utilisateur self-service"
    from_grant admin_id client.id

  abbrev from_roles : Action SeedReport
  from_roles = do admin ← upsert_role env "admin" "Accès total (bypass RBAC)"; from_client admin.id

  -- The four tables that the templates leave alone.
  abbrev SameTables : World → World → Type 0
  SameTables w w' =
      (w'.permissions ≡ w.permissions)
      × (w'.roles ≡ w.roles)
      × (w'.role_permissions ≡ w.role_permissions)
      × (w'.users ≡ w.users)

  templates-SameTables :
      (w : World) → SameTables w (for_each (upsert_template env) template_seeds w).1
  templates-SameTables w =
      for_each-keeps (upsert_template env) (λ _ _. Unit {0}) (upsert_template-ok env) (SameTables w)
        (λ t w' k.
          upsert_template-keeps env t w' (SameTables w)
            (λ w'' ps rs rps us. (ps ∙ k.0, rs ∙ k.1, rps ∙ k.2, us ∙ k.3)))
        template_seeds w (refl, refl, refl, refl)

  permissions-IsSettled :
      (w : World)
      → All
          (λ s. IsSettled s (for_each (upsert_permission env) permission_seeds w).1.permissions)
          permission_seeds
  permissions-IsSettled w =
      for_each-Done (upsert_permission env) (λ s w'. IsSettled s w'.permissions)
        (upsert_permission-ok env) clash (λ t s w' apart. upsert_permission-stays env t w' s apart)
        (λ s w'. upsert_permission-IsSettled env s w') permission_seeds w permission_seeds-Distinct

  templates-there :
      (w : World)
      → All
          (λ t. HasTemplate t (for_each (upsert_template env) template_seeds w).1.templates)
          template_seeds
  templates-there w =
      for_each-Done (upsert_template env) (λ t w'. HasTemplate t w'.templates)
        (upsert_template-ok env) (λ _ _. false) (λ t s w' apart. upsert_template-stays env t w' s)
        (λ t w'. upsert_template-HasTemplate env t w') template_seeds w
        (Distinct-of_none template_seeds)

  module _ (a c : Role) (w : World)
      (settled : All (λ s. IsSettled s w.permissions) permission_seeds)
      (admin_found : find (named "admin") w.roles ≡ some a)
      (client_found : find (named "client") w.roles ≡ some c) where
    abbrev report : SeedReport
    report = record { admin_id = a.id; client_id = c.id }

    from_grant-IsSeeded :
        (r : SeedReport) → (from_grant a.id c.id w).0 ≡ ok r → IsSeeded r (from_grant a.id c.id w).1
    from_grant-IsSeeded r h =
        let w4 : World = (grant_client c.id w).1 in
        let granted : from_grant a.id c.id w
            ≡ (upsert_system_user a.id >>= λ _. from_templates a.id c.id) w4 =
          unfold grant_client in refl in
        elim (upsert_system_user-found a.id w4) [
          | inl e ↦ absurd (ground (arith, h, granted, e))
          | inr (u, e, found, ps, rs, rps) ↦
              let w5 : World = (upsert_system_user a.id w4).1 in
              let w6 : World = (for_each (upsert_template env) template_seeds w5).1 in
              let run : from_grant a.id c.id w ≡ (ok report, w6) =
                granted
                ∙ then_ok (upsert_system_user a.id) (λ _. from_templates a.id c.id) w4 u e
                ∙ then_ok (for_each (upsert_template env) template_seeds) (λ _. pure report) w5 tt
                    (for_each-ok (upsert_template env) (λ _ _. Unit {0}) (upsert_template-ok env)
                      template_seeds w5) in
              let same_tables : SameTables w5 w6 = templates-SameTables w5 in
              let all_ps : w6.permissions ≡ w.permissions =
                same_tables.0 ∙ ps ∙ unfold grant_client in refl in
              let all_rs : w6.roles ≡ w.roles = same_tables.1 ∙ rs ∙ unfold grant_client in refl in
              let all_rps : w6.role_permissions ≡ w4.role_permissions = same_tables.2 ∙ rps in
              subst (λ p. IsSeeded r p.1) (sym run)
                (record {
                  permissions_settled =
                      subst (λ rows. All (λ s. IsSettled s rows) permission_seeds) (sym all_ps)
                        settled;
                  admin = a;
                  admin_found = ap (find (named "admin")) all_rs ∙ admin_found;
                  client = c;
                  client_found = ap (find (named "client")) all_rs ∙ client_found;
                  reported = cc (h, ap (λ p. p.0) run);
                  granted =
                      subst (λ rows. IsGranted c.id rows w6.role_permissions) (sym all_ps)
                        (subst (IsGranted c.id w.permissions) (sym all_rps)
                          (grant_client-IsGranted c.id w));
                  system_user = u;
                  system_found = ap (find is_system_user) same_tables.3 ∙ found;
                  templates_there = templates-there w5;
                })
        ]

  -- However the seed starts, it leaves a seeded state unless it fails.
  pub seed-IsSeeded :
      (r : SeedReport) (w : World) → (seed env w).0 ≡ ok r → IsSeeded r (seed env w).1
  unfolding seed
  seed-IsSeeded r w h =
      let w1 : World = (for_each (upsert_permission env) permission_seeds w).1 in
      let (a, e, found, ps) = upsert_role-found env "admin" "Accès total (bypass RBAC)" w1 in
      let w2 : World = (upsert_role env "admin" "Accès total (bypass RBAC)" w1).1 in
      let (c, e', found', ps') = upsert_role-found env "client" "Utilisateur self-service" w2 in
      let w3 : World = (upsert_role env "client" "Utilisateur self-service" w2).1 in
      let run : seed env w ≡ from_grant a.id c.id w3 =
        then_ok (for_each (upsert_permission env) permission_seeds) (λ _. from_roles) w tt
          (for_each-ok (upsert_permission env) (λ _ _. Unit {0}) (upsert_permission-ok env)
            permission_seeds w)
        ∙ then_ok (upsert_role env "admin" "Accès total (bypass RBAC)")
            (λ (r : Role). from_client r.id) w1 a e
        ∙ then_ok (upsert_role env "client" "Utilisateur self-service")
            (λ (r : Role). from_grant a.id r.id) w2 c e' in
      subst (λ p. IsSeeded r p.1) (sym run)
        (from_grant-IsSeeded a c w3
          (subst (λ rows. All (λ s. IsSettled s rows) permission_seeds) (sym (ps' ∙ ps))
            (permissions-IsSettled w))
          (upsert_role-stays env "client" "Utilisateur self-service" w2 "admin" a found) found' r
          (sym (ap (λ p. p.0) run) ∙ h))

  -- If the seed succeeds, running it once more gives the same report and changes nothing.
  pub seed_twice :
      (r : SeedReport) (w : World)
      → (seed env w).0 ≡ ok r
      → seed env (seed env w).1 ≡ (ok r, (seed env w).1)
  seed_twice r w h = seed-settled r (seed env w).1 (seed-IsSeeded r w h)
