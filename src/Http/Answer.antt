-- ===== src/Http/Answer.antt =====
-- What handlers answer with, and how they come by the user of the request
-- (backend/src/common/decorators/current-user.decorator.ts) and answer with an exception
-- (backend/src/common/filters/http-exception.filter.ts).
use elysia_panel.Prelude.{ℕ, String, Option, none, some, List}
use elysia_panel.World.Schema.{
  RowId, User, Role, Permission, Node, NetworkAllocation, ServerTemplate, Server,
}
use elysia_panel.World.Daemon.{ReplyBody}
use elysia_panel.World.Action.{
  Action, Exception, bad_request, forbidden, not_found, unauthorized, conflict, rpc_error, internal,
  record_missing, unique_violation, foreign_key_violation, invalid_cron, ◌>>=◌, pure, throw,
}
use elysia_panel.Identity.{AuthenticatedUser}
use elysia_panel.Nodes.{Health}
use elysia_panel.Audit.{AuditView}
use elysia_panel.Monitoring.{Summary}
use elysia_panel.Templates.{NodeView, RoleView}
use elysia_panel.Servers.Access.{ServerView}
use elysia_panel.Servers.Create.{Created}

pub data Answer : Type 0 where
  done : Answer
  servers : List Server → Answer
  server_view : ServerView → Answer
  created_server : Created → Answer
  a_server : Server → Answer
  allocation : NetworkAllocation → Answer
  reply : ReplyBody → Answer
  users : List User → Answer
  a_user : User → Answer
  user_card : RowId × String × String → Answer
  nodes : List NodeView → Answer
  a_node : Node → Answer
  health : Health → Answer
  roles : List RoleView → Answer
  a_role : Option Role → Answer
  permissions : List Permission → Answer
  audit : List AuditView → Answer
  templates : List ServerTemplate → Answer
  a_template : ServerTemplate → Answer
  summary : Summary → Answer

-- A service's result as an answer.
abbrev pub answer : {A : Type 0} → (A → Answer) → Action A → Action Answer
answer f m = m >>= λ a. pure (f a)

-- A handler that reads its `@CurrentUser()`: without one that is a TypeError.
abbrev pub with_user :
    Option AuthenticatedUser → (AuthenticatedUser → Action Answer) → Action Answer
with_user none h = throw (internal "TypeError")
with_user (some user) h = h user

-- The status that `HttpExceptionFilter` answers with: that of an HttpException, 500 for any other.
unfoldable pub http_status : Exception → ℕ
http_status (bad_request m) = 400
http_status (forbidden m) = 403
http_status (not_found m) = 404
http_status (unauthorized m) = 401
http_status (conflict m) = 409
http_status (rpc_error m) = 500
http_status (internal m) = 500
http_status record_missing = 500
http_status unique_violation = 500
http_status foreign_key_violation = 500
http_status invalid_cron = 500
