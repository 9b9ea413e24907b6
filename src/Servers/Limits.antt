-- ===== src/Servers/Limits.antt =====
-- The limits of the servers under the operations of backend/src/servers/servers.service.ts: only
-- `create` sets them.
use elysia_panel.Prelude.{
  false, none, ◌≤◌, ◌≡◌, sym, concat, ◌+◌, ap, ◌∙◌, subst, String, Bool, true, ◌⊎◌, inl, inr, some,
  List, ◌==◌, find, update_rows, delete_rows, All, All-update_rows, All-delete_rows, All-append,
  arith, Option-cases, Bool-cases,
}
use elysia_panel.World.Schema.{RowId, Server, ServerTemplate, Node, ServerStatus}
use elysia_panel.World.State.{World, Env}
use elysia_panel.World.Action.{Result-cases, transaction}
use elysia_panel.Identity.{AuthenticatedUser}
use elysia_panel.NodeClient.{call, get_or_create_client}
use elysia_panel.Nodes.Eligible.{Doubles}
use elysia_panel.Servers.Access.{endpoint_of, find_accessible_or_throw}
use elysia_panel.Servers.Access.Laws.{find_accessible-state}
use elysia_panel.Servers.Capacity.{inserted, create_cases}
use elysia_panel.Servers.Create.{
  spec_of, CreateServer, owner_or_actor, insert_server, place, create, create_allocation,
}
use elysia_panel.Servers.Manage.{
  UpdateServer, updated, update, delete, remove_server, delete_server_row, delete_remotely,
  add_allocation, insert_allocation, remove_allocation, add_sub_user, upsert_sub_user,
  remove_sub_user,
}
use elysia_panel.Servers.Ports.{allocate_port}
use elysia_panel.Servers.Release.{delete_remotely_lem}
use elysia_panel.World.Daemon.{Request, Endpoint}
use elysia_panel.Servers.Power.{
  PowerAction, optimistic_status, power_action, send_command, reinstall, suspend, unsuspend,
}

-- The least limits of a server: a tenth of a processor, 256 MB of memory and 512 MB of disk.
abbrev pub HasMinimum : Server → Type 0
HasMinimum s = (10 ≤ s.cpu_limit_pct) × (256 ≤ s.memory_limit_mb) × (512 ≤ s.disk_limit_mb)

-- Every stored server has the least limits.
abbrev pub MeetsMinimum : World → Type 0
MeetsMinimum w = All HasMinimum w.servers

-- How an operation that sets no limit leaves the servers: as they were, with some rewritten, or
-- with some deleted.
abbrev pub LeavesLimits : World → World → Type 0
LeavesLimits w w' =
    (w'.servers ≡ w.servers)
    ⊎ ((p : Server → Bool) × (f : Server → Server) × ((s : Server)
          → HasMinimum s
          → HasMinimum (f s))
        × (w'.servers ≡ update_rows p f w.servers))
    ⊎ ((p : Server → Bool) × (w'.servers ≡ delete_rows p w.servers))

pub LeavesLimits-MeetsMinimum :
    (w w' : World) → LeavesLimits w w' → MeetsMinimum w → MeetsMinimum w'
LeavesLimits-MeetsMinimum w w' (inl same) m = subst (All HasMinimum) (sym same) m
LeavesLimits-MeetsMinimum w w' (inr (inl (p, f, h, eq))) m =
    subst (All HasMinimum) (sym eq) (All-update_rows HasMinimum p f w.servers (λ s _ b. h s b) m)
LeavesLimits-MeetsMinimum w w' (inr (inr (p, eq))) m =
    subst (All HasMinimum) (sym eq) (All-delete_rows HasMinimum p w.servers m)

-- The calls of a daemon leave the servers alone.
call-servers :
    (env : Env) (node_id : RowId) (params : Endpoint) (request : Request) (w : World)
    → (call env node_id params request w).1.servers ≡ w.servers
unfolding call get_or_create_client
call-servers env node_id params request w = ground arith

-- The transaction of `delete` is undone, or deletes the row.
remove_server-servers :
    (server : Server) (id : RowId) (w : World)
    → let w' = (transaction (remove_server server id) w).1 in
      (w'.servers ≡ w.servers) ⊎ (w'.servers ≡ delete_rows (λ s. s.id == id) w.servers)
unfolding remove_server delete_server_row
remove_server-servers server id w =
    elim (Option-cases (find (λ n. n.id == server.node_id) w.nodes)) [
      | inl missing ↦ inl (ground arith)
      | inr (n, e) ↦ elim (Option-cases (find (λ s. s.id == id) w.servers)) [
        | inl gone ↦ inl (ground arith)
        | inr (s, e') ↦ inr (ground arith)
      ]
    ]

module _ (id : RowId) (actor : AuthenticatedUser) (w : World) where
  pub update-LeavesLimits : (dto : UpdateServer) → LeavesLimits w (update id dto actor w).1
  unfolding update
  update-LeavesLimits dto = elim (Result-cases (find_accessible_or_throw id actor w).0) [
    | inr (x, e) ↦ inl (ground (arith, find_accessible-state id actor w))
    | inl (v, e) ↦ elim (Option-cases (find (λ s. s.id == id) w.servers)) [
      | inl gone ↦ inl (ground (arith, find_accessible-state id actor w))
      | inr (s, found) ↦ inr (
          inl (
            (λ s. s.id == id),
            updated dto,
            (λ s m. m),
            ground (arith, find_accessible-state id actor w),
          ))
    ]
  ]

  pub suspend-LeavesLimits : (reason : String) → LeavesLimits w (suspend id reason actor.id w).1
  unfolding suspend
  suspend-LeavesLimits reason = elim (Option-cases (find (λ s. s.id == id) w.servers)) [
    | inl gone ↦ inl (ground arith)
    | inr (s, found) ↦ inr (
        inl (
          (λ s. s.id == id),
          (λ s. record s {
            suspended = true;
            suspended_reason = some reason;
            status = ServerStatus.suspended;
          }),
          (λ s m. m),
          ground arith,
        ))
  ]

  pub unsuspend-LeavesLimits : LeavesLimits w (unsuspend id actor.id w).1
  unfolding unsuspend
  unsuspend-LeavesLimits = elim (Option-cases (find (λ s. s.id == id) w.servers)) [
    | inl gone ↦ inl (ground arith)
    | inr (s, found) ↦ inr (
        inl (
          (λ s. s.id == id),
          (λ s. record s {
            suspended = false;
            suspended_reason = none;
            status = ServerStatus.offline;
          }),
          (λ s m. m),
          ground arith,
        ))
  ]

  pub remove_allocation-servers :
      (allocation_id : RowId) → (remove_allocation id allocation_id actor w).1.servers ≡ w.servers
  unfolding remove_allocation
  remove_allocation-servers allocation_id = ground (arith, find_accessible-state id actor w)

  pub add_sub_user-servers :
      (user_id : RowId) (permissions : List String)
      → (add_sub_user id user_id permissions actor w).1.servers ≡ w.servers
  unfolding add_sub_user upsert_sub_user
  add_sub_user-servers user_id permissions = ground (arith, find_accessible-state id actor w)

  pub remove_sub_user-servers :
      (user_id : RowId) → (remove_sub_user id user_id actor w).1.servers ≡ w.servers
  unfolding remove_sub_user
  remove_sub_user-servers user_id = ground (arith, find_accessible-state id actor w)

module _ (env : Env) (id : RowId) (actor : AuthenticatedUser) (w : World) where
  pub power_action-LeavesLimits :
      (action : PowerAction) → LeavesLimits w (power_action env id action actor w).1
  unfolding power_action call get_or_create_client
  power_action-LeavesLimits action = elim (Result-cases (find_accessible_or_throw id actor w).0) [
    | inr (x, e) ↦ inl (ground (arith, find_accessible-state id actor w))
    | inl (v, e) ↦ elim (Bool-cases v.suspended) [
      | inl stopped ↦ inl (ground (arith, find_accessible-state id actor w))
      | inr runs ↦ elim (Option-cases (find (λ s. s.id == id) w.servers)) [
        | inl gone ↦ inl (ground (arith, find_accessible-state id actor w))
        | inr (s, found) ↦ inr (
            inl (
              (λ s. s.id == id),
              (λ s. record s { status = optimistic_status action }),
              (λ s m. m),
              ground (arith, find_accessible-state id actor w),
            ))
      ]
    ]
  ]

  pub send_command-servers :
      (command : String) → (send_command env id command actor w).1.servers ≡ w.servers
  unfolding send_command call get_or_create_client
  send_command-servers command = ground (arith, find_accessible-state id actor w)

  pub reinstall-LeavesLimits : LeavesLimits w (reinstall env id actor w).1
  unfolding reinstall
  reinstall-LeavesLimits = elim (Result-cases (find_accessible_or_throw id actor w).0) [
    | inr (x, e) ↦ inl (ground (arith, find_accessible-state id actor w))
    | inl (v, e) ↦
        let request : Request =
          Request.reinstall_server (spec_of v.server v.template v.allocations) in
        let w' : World = (call env v.node_id (endpoint_of v.node) request w).1 in
        let kept : w'.servers ≡ w.servers =
          call-servers env v.node_id (endpoint_of v.node) request w in
        elim (Result-cases (call env v.node_id (endpoint_of v.node) request w).0) [
          | inr (x, e') ↦ inl (ground (arith, kept, find_accessible-state id actor w))
          | inl (body, e') ↦ elim (Option-cases (find (λ s. s.id == id) w'.servers)) [
            | inl gone ↦ inl (ground (arith, kept, find_accessible-state id actor w))
            | inr (s, found) ↦ inr (
                inl (
                  (λ s. s.id == id),
                  (λ s. record s { status = ServerStatus.offline }),
                  (λ s m. m),
                  ground (arith, kept, find_accessible-state id actor w),
                ))
          ]
        ]
  ]

  pub add_allocation-servers : (add_allocation env id actor w).1.servers ≡ w.servers
  unfolding add_allocation insert_allocation create_allocation allocate_port
  add_allocation-servers = ground (arith, find_accessible-state id actor w)

  pub delete-LeavesLimits : LeavesLimits w (delete env id actor w).1
  unfolding delete
  delete-LeavesLimits = elim (Result-cases (find_accessible_or_throw id actor w).0) [
    | inr (x, e) ↦ inl (ground (arith, find_accessible-state id actor w))
    | inl (v, e) ↦
        let (done, _, kept) = delete_remotely_lem env v w in
        let w' : World = (delete_remotely env v w).1 in
        let rows : (delete env id actor w).1.servers
            ≡ (transaction (remove_server v.server id) w').1.servers =
          ground (arith, find_accessible-state id actor w) in
        elim (remove_server-servers v.server id w') [
          | inl same ↦ inl (rows ∙ same ∙ kept)
          | inr gone ↦
              inr (inr ((λ s. s.id == id), rows ∙ gone ∙ ap (delete_rows (λ s. s.id == id)) kept))
        ]
  ]

module _ (env : Env) (dto : CreateServer) (actor : AuthenticatedUser) (w : World) where
  place-MeetsMinimum :
      (template : ServerTemplate) (node : Node)
      → (10 ≤ dto.cpu_limit_pct) × (256 ≤ dto.memory_limit_mb) × (512 ≤ dto.disk_limit_mb)
      → MeetsMinimum w
      → MeetsMinimum (place env dto actor template node w).1
  unfolding place
  place-MeetsMinimum template node limits m =
      elim (Result-cases (insert_server env dto (owner_or_actor dto actor) node template w).0) [
        | inr (x, e) ↦
            let same : (place env dto actor template node w).1.servers ≡ w.servers = ground arith in
            subst (All HasMinimum) (sym same) m
        | inl (c, e) ↦
            let (_, rows) = inserted env dto (owner_or_actor dto actor) node template w c e in
            let eq : (place env dto actor template node w).1.servers
                ≡ (insert_server env dto (owner_or_actor dto actor) node template w).1.servers =
              ground arith in
            subst (All HasMinimum) (sym (eq ∙ rows)) (
              All-update_rows HasMinimum (λ s. s.id == env.uuid w.drawn)
                (λ s. record s {
                  data_path = concat "/srv/elysia/servers/" (env.uuid_text (w.drawn + 1));
                })
                _ (λ s _ b. b) (All-append HasMinimum w.servers _ m (limits, tt)))
      ]

  -- `create` with limits that are not too low adds no server with lower ones.
  pub create-MeetsMinimum :
      (d : Doubles)
      → (10 ≤ dto.cpu_limit_pct) × (256 ≤ dto.memory_limit_mb) × (512 ≤ dto.disk_limit_mb)
      → MeetsMinimum w
      → MeetsMinimum (create env d dto actor w).1
  create-MeetsMinimum d limits m =
      create_cases env dto actor w MeetsMinimum d m
        (λ template node. place-MeetsMinimum template node limits m)
