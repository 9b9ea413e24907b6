-- ===== src/Servers/Power/Laws.antt =====
-- What a power action does on each branch, and which operations keep a suspended server marked so.
use elysia_panel.Prelude.{
  ◌++◌, concat, subst, sym, update_rows-none, String, true, false, ◌≡◌, refl, none, [], ◌∷◌, ◌==◌,
  update_rows, All, All-update_rows, All-find, find-update_rows, arith, find, some, ◌⊎◌, inl, inr,
  Bool-cases,
}
use elysia_panel.World.Schema.{RowId, Server, ServerStatus}
use elysia_panel.World.Daemon.{Request, ReplyBody, replied, broken}
use elysia_panel.World.State.{World, Env}
use elysia_panel.World.Action.{
  audit_row, entry, ok, err, bad_request, Exception, Result, ⊤, Result-cases,
}
use elysia_panel.Identity.{AuthenticatedUser}
use elysia_panel.NodeClient.{call, rpc_to, result_of}
use elysia_panel.Servers.Access.{ServerView, find_accessible_or_throw, endpoint_of}
use elysia_panel.Servers.Access.Laws.{find_accessible-state, find_accessible-ok}
use elysia_panel.Servers.Create.{spec_of}
use elysia_panel.Servers.Power.{
  PowerAction, start, stop, restart, kill, power_request, optimistic_status, action_name,
  power_action, suspend, unsuspend, reinstall,
}

-- What each power action writes, sends and is logged as.
abbrev pub IsPowerRow : PowerAction → String → ServerStatus → Request → String → Type 0
IsPowerRow start uuid status request name =
    (status ≡ ServerStatus.starting)
    × (request ≡ Request.start_server uuid)
    × (name ≡ "server.power.start")
IsPowerRow stop uuid status request name =
    (status ≡ ServerStatus.stopping)
    × (request ≡ Request.stop_server uuid)
    × (name ≡ "server.power.stop")
IsPowerRow restart uuid status request name =
    (status ≡ ServerStatus.starting)
    × (request ≡ Request.restart_server uuid)
    × (name ≡ "server.power.restart")
IsPowerRow kill uuid status request name =
    (status ≡ ServerStatus.offline)
    × (request ≡ Request.kill_server uuid)
    × (name ≡ "server.power.kill")

power_tables :
    (action : PowerAction) (uuid : String)
    → IsPowerRow action uuid
        (optimistic_status action)
        (power_request action uuid)
        (concat "server.power." (action_name action))
power_tables start uuid = (refl, refl, refl)
power_tables stop uuid = (refl, refl, refl)
power_tables restart uuid = (refl, refl, refl)
power_tables kill uuid = (refl, refl, refl)

module _ (env : Env) (id : RowId) (action : PowerAction) (actor : AuthenticatedUser)
    (w : World) where
  -- A suspended server is refused before anything is written or sent.
  pub power_action_suspended :
      (v : ServerView)
      → (find_accessible_or_throw id actor w).0 ≡ ok v
      → v.suspended ≡ true
      → power_action env id action actor w ≡ (err (bad_request "Serveur suspendu"), w)
  unfolding power_action
  power_action_suspended v h s = ground (arith, find_accessible-state id actor w)

  abbrev pub IsPowered : Result ⊤ × World → Type 0
  IsPowered outcome =
      ((e : Exception) × ((find_accessible_or_throw id actor w).0 ≡ err e) × (outcome ≡ (err e, w)))
      ⊎ ((v : ServerView) × ((find_accessible_or_throw id actor w).0 ≡ ok v)
          × (v.suspended ≡ true)
          × (outcome ≡ (err (bad_request "Serveur suspendu"), w)))
      ⊎ ((v : ServerView) × (status : ServerStatus) × (request : Request) × (name : String)
          × ((find_accessible_or_throw id actor w).0 ≡ ok v)
          × (v.suspended ≡ false)
          × IsPowerRow action v.uuid status request name
          × (outcome.1.servers
              ≡ update_rows (λ s. s.id == id) (λ s. record s { status = status }) w.servers)
          × (outcome.1.sent ≡ rpc_to v.node_id (endpoint_of v.node) request w ∷ w.sent)
          × (outcome.0
              ≡ result_of (env.daemon w.sent (rpc_to v.node_id (endpoint_of v.node) request w)))
          × (outcome.1.audit_logs
              ≡ (elim (env.daemon w.sent (rpc_to v.node_id (endpoint_of v.node) request w)) [
                | replied _ ↦ w.audit_logs ++ audit_row (entry actor.id name "Server" id) ∷ []
                | broken _ ↦ w.audit_logs
              ])))

  -- A power action is refused, with nothing written or sent, if the server is not handed out to the
  -- caller or is suspended. Else it writes the status that goes with it to that server (STARTING for
  -- a start or restart, STOPPING for a stop, OFFLINE for a kill) and sends the one request of that
  -- name with the server's UUID to its node. The daemon's reply decides the rest: an error is passed
  -- on, with that status left and nothing logged; after an answer one audit entry names the action.
  pub power_action_outcome : IsPowered (power_action env id action actor w)
  unfolding power_action call
  power_action_outcome = elim (Result-cases (find_accessible_or_throw id actor w).0) [
    | inr (e, h) ↦ inl (e, h, ground (arith, find_accessible-state id actor w))
    | inl (v, h) ↦ elim (Bool-cases v.suspended) [
      | inl s ↦ inr (inl (v, h, s, power_action_suspended v h s))
      | inr s ↦
          let (found, _, _) = find_accessible-ok id actor w v h in
          inr (
            inr (
              v,
              optimistic_status action,
              power_request action v.uuid,
              concat "server.power." (action_name action),
              h,
              s,
              power_tables action v.uuid,
              ground (arith, find_accessible-state id actor w, found),
              ground (arith, find_accessible-state id actor w, found),
              ground (arith, find_accessible-state id actor w, found),
              ground (arith, find_accessible-state id actor w, found),
            ))
    ]
  ]

abbrev pub IsMarkedRow : Server → Type 0
IsMarkedRow s = (s.suspended ≡ true) → s.status ≡ ServerStatus.suspended

-- Every suspended server has the status of one.
abbrev pub IsMarked : World → Type 0
IsMarked w = All IsMarkedRow w.servers

module _ (id : RowId) (actor_id : RowId) (w : World) where
  suspend-servers :
      (reason : String)
      → (suspend id reason actor_id w).1.servers
        ≡ update_rows
            (λ s. s.id == id)
            (λ s. record s {
              suspended = true;
              suspended_reason = some reason;
              status = ServerStatus.suspended;
            })
            w.servers
  unfolding suspend
  suspend-servers reason = ground (
    arith,
    update_rows-none (λ (s : Server). s.id == id)
        (λ s. record s {
          suspended = true;
          suspended_reason = some reason;
          status = ServerStatus.suspended;
        })
        w.servers,
  )

  unsuspend-servers :
      (unsuspend id actor_id w).1.servers
      ≡ update_rows
          (λ s. s.id == id)
          (λ s. record s {
            suspended = false;
            suspended_reason = none;
            status = ServerStatus.offline;
          })
          w.servers
  unfolding unsuspend
  unsuspend-servers = ground (
    arith,
    update_rows-none (λ (s : Server). s.id == id)
        (λ s. record s {
          suspended = false;
          suspended_reason = none;
          status = ServerStatus.offline;
        })
        w.servers,
  )

  -- Suspending and unsuspending a server keep every suspended server marked.
  pub suspend-IsMarked :
      (reason : String)
      → IsMarked w
      → IsMarked (suspend id reason actor_id w).1 × IsMarked (unsuspend id actor_id w).1
  suspend-IsMarked reason m = (
    subst (All IsMarkedRow) (sym (suspend-servers reason))
        (All-update_rows IsMarkedRow (λ s. s.id == id) _ w.servers (λ s _ _ _. refl) m),
    subst (All IsMarkedRow) (sym unsuspend-servers)
        (All-update_rows IsMarkedRow (λ s. s.id == id) _ w.servers (λ s _ _ e. absurd (cc)) m),
  )

module _ (env : Env) (id : RowId) (actor : AuthenticatedUser) (w : World) where
  -- A suspended server may be reinstalled by anyone who may access it, and once the daemon has
  -- answered the server stands as OFFLINE while it is still suspended.
  pub reinstall_unmarks :
      (v : ServerView) (body : ReplyBody)
      → (find_accessible_or_throw id actor w).0 ≡ ok v
      → v.suspended ≡ true
      → env.daemon w.sent (
          rpc_to v.node_id
            (endpoint_of v.node)
            (Request.reinstall_server (spec_of v.server v.template v.allocations))
            w)
        ≡ replied body
      → let (result, w') = reinstall env id actor w in
        (result ≡ ok tt)
        × (find (λ s. s.id == id) w'.servers
            ≡ some (record v.server { status = ServerStatus.offline }))
        × ¬ IsMarked w'
  unfolding reinstall call
  reinstall_unmarks v body h s r =
      let (found, _, _) = find_accessible-ok id actor w v h in
      let left : find (λ t. t.id == id) w'.servers ≡ some after = ground (
        arith,
        find_accessible-state id actor w,
        find-update_rows (λ (t : Server). t.id == id)
            (λ t. record t { status = ServerStatus.offline }) w.servers,
      ) in
      (
        ground (arith, find_accessible-state id actor w, found),
        left,
        λ m. absurd (cc (All-find IsMarkedRow (λ t. t.id == id) w'.servers after m left s)),
      )
    where
      after : Server
      after = record v.server { status = ServerStatus.offline }

      w' : World
      w' = (reinstall env id actor w).1
