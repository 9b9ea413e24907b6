-- ===== src/Http/Users.antt =====
-- UsersController (backend/src/users/users.controller.ts) behind the guards. The page of the list
-- is asked for with numbers.
pub mod Laws
use elysia_panel.Prelude.{ℕ, String, Bool, false, Option, List, [], ◌∷◌}
use elysia_panel.World.Schema.{RowId}
use elysia_panel.World.State.{Env}
use elysia_panel.World.Action.{Action, ◌>>=◌, gets}
use elysia_panel.Identity.{AuthenticatedUser}
use elysia_panel.Guards.{HttpRequest, guarded}
use elysia_panel.Users
use elysia_panel.Http.Answer.{Answer, answer, with_user}
use elysia_panel.Http.Body.{Fields, create_user_dto, update_user_dto}

-- A handler with the parameters of its path and its query, and its body.
pub data UsersCall : Type 0 where
  list : Option ℕ → Option ℕ → UsersCall
  lookup_by_email : String → UsersCall
  get : RowId → UsersCall
  create : Fields → UsersCall
  update : RowId → Fields → UsersCall
  reset_password : RowId → String → UsersCall
  suspend ban : RowId → String → UsersCall
  reactivate delete : RowId → UsersCall

-- `@RequirePermissions`
unfoldable pub required : UsersCall → List String
required (list skip take) = "users.read" ∷ []
required (lookup_by_email email) = []
required (get id) = "users.read" ∷ []
required (create body) = "users.create" ∷ []
required (update id body) = "users.update" ∷ []
required (reset_password id password) = "users.update" ∷ []
required (suspend id reason) = "users.suspend" ∷ []
required (ban id reason) = "users.ban" ∷ []
required (reactivate id) = "users.update" ∷ []
required (delete id) = "users.delete" ∷ []

-- `row_id` reads an identifier of a body, and `is_email` is the test of `@IsEmail()`.
module _ (env : Env) (row_id : String → RowId) (is_email : String → Bool) where
  unfoldable pub handle : UsersCall → Option AuthenticatedUser → Action Answer
  handle (list skip take) user = answer Answer.users (gets (Users.list skip take))
  handle (lookup_by_email email) user = answer Answer.user_card (Users.lookup_by_email email)
  handle (get id) user = answer Answer.a_user (Users.find_by_id_or_throw id)
  handle (create body) user = create_user_dto is_email row_id body >>= λ dto.
      with_user user λ actor. answer Answer.a_user (Users.create env dto actor.id)
  handle (update id body) user = update_user_dto row_id body >>= λ dto.
      with_user user λ actor. answer Answer.a_user (Users.update id dto actor.id)
  handle (reset_password id password) user =
      with_user user
        λ actor. answer (λ _. Answer.done) (Users.reset_password env id password actor.id)
  handle (suspend id reason) user =
      with_user user λ actor. answer Answer.a_user (Users.suspend id reason actor.id)
  handle (ban id reason) user =
      with_user user λ actor. answer Answer.a_user (Users.ban id reason actor.id)
  handle (reactivate id) user =
      with_user user λ actor. answer Answer.a_user (Users.reactivate id actor.id)
  handle (delete id) user =
      with_user user λ actor. answer (λ _. Answer.done) (Users.delete id actor.id)

  -- A request to a handler of the controller.
  unfoldable pub serve : UsersCall → HttpRequest → Action Answer
  serve call = guarded env false (required call) (handle call)
