-- ===== src/Http/Users/Laws.antt =====
-- What the permission `users.update` is worth, and what needs no permission at all.
use elysia_panel.Prelude.{
  String, Bool, true, false, ◌≡◌, some, none, [], ◌∷◌, ◌&&◌, ◌==◌, same, find, includes, arith,
  List, refl, update_rows, find_passes, find-update_rows, any, any_of_found, concat, ap, ◌∙◌,
}
use elysia_panel.Prelude.Slices.{ends-concat}
use elysia_panel.World.Schema.{RowId, User, Role}
use elysia_panel.World.State.{World, Env}
use elysia_panel.World.Action.{ok}
use elysia_panel.Identity.{AuthenticatedUser, permissions_of, permissions_for_role}
use elysia_panel.Guards.{
  HttpRequest, is_metrics, is_docs, guarded, jwt_auth_guard, permissions_guard, authenticate,
}
use elysia_panel.Users
use elysia_panel.Http.Answer.{Answer}
use elysia_panel.Http.Body.{Fields, text, update_user_dto}
use elysia_panel.Http.Users.{update, lookup_by_email, required, handle, serve}

any-false : {A : Type 0} (xs : List A) → any (λ _. false) xs ≡ false
any-false [] = refl
any-false (x ∷ xs) = any-false xs

-- A change of the role alone, of a user that exists.
update_role :
    (id role_id actor_id : RowId) (w : World) (u : User)
    → find (λ v. v.id == id) w.users ≡ some u
    → any (λ r. r.id == role_id) w.roles ≡ true
    → let (result, w') =
        Users.update id (record { username = none; role_id = some role_id }) actor_id w in
      (result ≡ ok (record u { role_id = some role_id }))
      × (w'.users
          ≡ update_rows (λ v. v.id == id) (λ v. record v { role_id = some role_id }) w.users)
      × (w'.roles ≡ w.roles)
unfolding Users.update
update_role id role_id actor_id w u found known = (
  ground (arith, any-false w.users),
  ground (arith, any-false w.users),
  ground (arith, any-false w.users),
)

module _ (env : Env) (row_id : String → RowId) (is_email : String → Bool) (request : HttpRequest)
    (w w' : World) (user : AuthenticatedUser) (u : User) (role : Role) (role_text : String) where
  abbrev body : Fields
  body = ("roleId", text role_text) ∷ []

  abbrev promoted : User
  promoted = record u { role_id = some role.id }

  -- Whoever holds `users.update` can become an administrator by a request to PATCH /users/:id with
  -- their own identifier and the identifier of the role "admin": it succeeds, and their
  -- permissions are the wildcard from then on. The user and the role are stored, and the URL is
  -- neither that of the metrics nor of the documentation.
  pub update_escalates :
      is_metrics request.url ≡ false
      → is_docs request.url ≡ false
      → authenticate env request w ≡ (ok user, w')
      → includes user.permissions "users.update" ≡ true
      → find (λ v. v.id == user.id) w'.users ≡ some u
      → find (λ r. r.id == role.id) w'.roles ≡ some role
      → role.is_system && same role.name "admin" ≡ true
      → row_id role_text ≡ role.id
      → let (result, w'') = serve env row_id is_email (update user.id body) request w in
        (result ≡ ok (Answer.a_user promoted))
        × (find (λ v. v.id == user.id) w''.users ≡ some promoted)
        × (permissions_of promoted w'' ≡ "*" ∷ [])
  unfolding serve guarded jwt_auth_guard permissions_guard required permissions_of
      permissions_for_role handle update_user_dto
  update_escalates other_url no_docs named may found admin system read =
      let (result, users, roles) =
        update_role user.id role.id user.id w' u found
          (any_of_found (λ r. r.id == role.id) w'.roles role admin) in
      let served : serve env row_id is_email (update user.id body) request w ≡ (
        ok (Answer.a_user promoted),
        (Users.update user.id (record { username = none; role_id = some role.id }) user.id w').1,
      ) =
        ground (arith, result) in
      let stays : (promoted.id == user.id) ≡ true =
        ground (arith, find_passes (λ v. v.id == user.id) w'.users u found) in
      (
        ground (arith, served),
        ground (
          arith,
          served,
          users,
          find-update_rows (λ (v : User). v.id == user.id)
              (λ v. record v { role_id = some role.id }) w'.users,
        ),
        ground (arith, served, roles),
      )

module _ (env : Env) (row_id : String → RowId) (is_email : String → Bool) (request : HttpRequest)
    (w : World) where
  -- A request to GET /users/lookup whose URL ends in "/metrics", as it does when that is the end of
  -- its query, is answered with the identifier, the name and the address of the stored user with
  -- the address asked for, whatever its headers are: nobody has to be signed in.
  pub lookup_unguarded :
      (beginning email : String) (u : User)
      → request.url ≡ concat beginning "/metrics"
      → find (λ v. same v.email email) w.users ≡ some u
      → serve env row_id is_email (lookup_by_email email) request w
        ≡ (ok (Answer.user_card (u.id, u.username, u.email)), w)
  unfolding serve guarded jwt_auth_guard permissions_guard required handle Users.lookup_by_email
  lookup_unguarded beginning email u ending found =
      let open_url : is_metrics request.url ≡ true =
        ap is_metrics ending ∙ ends-concat "/metrics" beginning in
      ground (arith, open_url, found)
