-- ===== src/NodeClient.antt =====
-- NodeClientService (backend/src/grpc-client/node-client.service.ts): one cached connection for
-- each node, and unary calls over it. Loading the protocol file and TLS credentials is left out.
use elysia_panel.Prelude.{none, some, [], ◌∷◌, ◌++◌, ◌==◌, find, delete_rows}
use elysia_panel.World.Schema.{RowId}
use elysia_panel.World.Daemon.{Endpoint, Request, Rpc, Reply, replied, broken, ReplyBody}
use elysia_panel.World.State.{World, Env}
use elysia_panel.World.Action.{Action, Result, ok, err, rpc_error, ◌>>=◌, modify, ⊤}

-- A cached connection is used whatever the parameters are.
unfoldable pub get_or_create_client : RowId → Endpoint → Action Endpoint
get_or_create_client node_id params w = elim (find (λ c. c.0 == node_id) w.clients) [
  | some cached ↦ (ok cached.1, w)
  | none ↦ (ok params, record w { clients = w.clients ++ (node_id, params) ∷ [] })
]

module _ (env : Env) where
  -- The message leaves, and the daemon answers or the promise is rejected.
  send : Rpc → Action ReplyBody
  send rpc w = elim (env.daemon w.sent rpc) [
    | replied body ↦ (ok body, record w { sent = rpc ∷ w.sent })
    | broken message ↦ (err (rpc_error message), record w { sent = rpc ∷ w.sent })
  ]

  -- `call`, and `ping` with the request `Request.ping`.
  unfoldable pub call : RowId → Endpoint → Request → Action ReplyBody
  unfolding get_or_create_client send
  call node_id params request = do
    connection ← get_or_create_client node_id params
    send (record { endpoint = connection; request = request })

-- `streamCall`: the request leaves over the node's connection, and the stream is open.
unfoldable pub stream_call : RowId → Endpoint → Request → Action ⊤
unfolding get_or_create_client
stream_call node_id params request = do
  connection ← get_or_create_client node_id params
  modify λ w. record w { sent = record { endpoint = connection; request = request } ∷ w.sent }

-- `disconnect`: the next call opens a new connection.
unfoldable pub disconnect : RowId → Action ⊤
disconnect node_id = modify λ w. record w { clients = delete_rows (λ c. c.0 == node_id) w.clients }

-- The message that `call` sends: over the cached connection of the node, or a new one.
abbrev pub rpc_to : RowId → Endpoint → Request → World → Rpc
rpc_to node_id params request w = record {
  endpoint = elim (find (λ c. c.0 == node_id) w.clients) [ none ↦ params | some c ↦ c.1 ];
  request = request;
}

-- How a call whose reply is not used ends.
abbrev pub result_of : Reply → Result ⊤
result_of (replied body) = ok tt
result_of (broken message) = err (rpc_error message)
