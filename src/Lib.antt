-- ===== src/Lib.antt =====
-- Elysia Panel: the backend of a panel that runs game servers on several nodes (backend/, NestJS
-- with a Prisma database). Users and API keys act on servers; ServersService places a server on a
-- node, keeps the node's books and asks the node's daemon over gRPC; backups and scheduled tasks
-- build on it; most changes leave an audit entry. The dashboard (dashboard/, Next.js) is a client
-- of the backend's HTTP interface.
--
-- The files and the code they model (paths below backend/src/ unless they start otherwise):
-- - World: the database (backend/prisma/schema.prisma) in World/Schema and World/Records, the
--   state in World/State, the messages to a daemon in World/Daemon, and in World/Action a call of
--   a service: a function from the state to a result or an exception and the state after. What was
--   written before a throw stays written, except in `transaction`. `log` is audit/audit.service.ts.
--   World/Keeps is about what such calls keep.
-- - NodeClient: `getOrCreateClient`, `call`, `streamCall` and `disconnect` of grpc-client/node-client.service.ts.
-- - Identity: auth/types/authenticated-user.ts and `permissionsForRole`.
-- - Nodes, Nodes/Eligible: nodes/nodes.service.ts; Eligible has `findEligibleNode`.
-- - Servers: servers/servers.service.ts. Access has `findAccessibleOrThrow` and `listForUser`,
--   Ports `allocatePort`, Create `create` and `provisionOnNode`, Power `powerAction`,
--   `sendCommand`, `suspend`, `unsuspend`, `reinstall`, Manage `delete`, `update`, allocations and
--   sub-users; Books relates what a node has allocated to its
--   servers, and Capacity, Release and Held are about `create` and `delete`. Limits is about what
--   each operation does to the limits of the servers.
-- - Auth: auth/auth.service.ts. Tokens has `issueTokenPair`, `refresh`, `logout`, TwoFactor
--   `login` and the setup of the second factor, Accounts `register`, the checks of passwords,
--   `changeOwnPassword`, `resolveUserFromAccessToken` and `impersonate`, OAuth
--   `validateOAuthLogin` with auth/strategies/ and the callbacks of auth/auth.controller.ts.
-- - ApiKeys, Users, Roles, Backups, Tasks: api-keys/api-keys.service.ts, users/users.service.ts,
--   roles/roles.service.ts, backups/backups.service.ts and
--   scheduled-tasks/scheduled-tasks.service.ts. Denied is about all operations on a server.
-- - Billing: billing/billing.service.ts; of billing/stripe.service.ts Billing/Stripe has the events
--   of the webhook, and Billing/Checkout the checkout sessions and the frame of the webhook.
-- - Audit, Monitoring, Templates: the list of audit/audit.service.ts,
--   monitoring/monitoring.service.ts, templates/templates.service.ts and the lists of nodes, roles
--   and permissions.
-- - Config: config/configuration.ts and the check of the secrets in main.ts.
-- - Seed: backend/prisma/seed.ts, its catalogue in Seed/Catalog.
-- - Support: support/support.service.ts and the handler of replies of
--   support/support.controller.ts.
-- - Guards: auth/guards/, auth/strategies/jwt.strategy.ts and common/guards/, the guards that stand
--   before every handler.
-- - Http: servers/servers.controller.ts, users/users.controller.ts, and in Http/Admin those of
--   nodes, roles, templates, the audit trail and monitoring, behind the guards; in Http/Body the
--   validation of bodies by the classes of the dto folders. A call of a controller is a value
--   (`ServersCall`, `UsersCall`, `AdminCall`), which `serve` runs for a request.
-- - Dashboard: dashboard/src/lib/api-client.ts and dashboard/src/lib/auth-context.tsx, with the
--   local storage and the calls of `fetch` so far as the state.
-- - Files, Files/Sftp: files/files.service.ts and the login of files/sftp-auth.service.ts.
-- - Downloads: common/url-safety.ts and `downloadFile` of the two catalogs; Marketplace and Mods:
--   marketplace/marketplace.service.ts and mods/mods.service.ts, with the modpacks in Mods/Packs.
-- - Gateway: websocket/console.gateway.ts, the sockets, their maps of streams and the open streams;
--   Gateway/Steps has its events in any order, Gateway/Keys and Gateway/Tidy what holds after them.
-- Modules named Laws hold the proofs about their parent. Prelude has what all of them share; Tests
-- has a small instance of the state and each theorem at it.
--
-- How the code is read. The tables are lists of rows in the order of creation; an operation of the
-- database throws as Prisma does, on a missing row, a unique constraint or a foreign key, where the
-- code can meet these. Identifiers are numbers, and texts of exceptions keep their fixed part. The
-- services that the backend calls are the fields of `Env`: random values, by the number drawn so
-- far; the daemons, by the requests sent before; bcrypt, SHA-256, TOTP, JSON web tokens and the cron
-- parser. The arithmetic of `findEligibleNode` on doubles is a record `Doubles` that it takes, and
-- the theorem on the least loaded node needs its comparison to be consistent on nodes with a
-- positive memory and numbers of a database column, where no quotient is NaN or infinite. The books
-- of a node are integers without the bounds of a database column. The catalogs of mods, addresses,
-- archives and their JSON are the fields of `Web`. `fetched` lists the addresses at which the
-- downloads of files start; the requests to the catalogs and the redirections that the HTTP client
-- follows are not in it. A request is handled from its start to its end before the next one; the jobs that `create` of servers and of backups start and do not await
-- are `provision_on_node` and `run_backup`. Of the console gateway the parts of a subscription
-- before and after its wait for the database are steps of their own.
--
-- Bounds. `scan_ports` runs over the 101 ports of the range with as many rounds, so it ends only
-- with a free port or at the end of the range. A decimal numeral has no more digits than its value,
-- which is its fuel. The other loops go down a list, or a numeral.
--
-- Parameters of other kinds: the order of texts in a database that sorts by them (`precedes`), its
-- order of audit entries, where those of one instant have none (`newest_first`), the library of
-- Stripe (`StripeApi`), the test of an address (`is_email`), the reading of an identifier
-- (`row_id`), and for the dashboard the browser and JSON (`Platform`). Bodies of requests have no
-- nulls, the fields of a body without a class have the type that the handler declares, and the
-- numbers in the query of a list are read before the model starts.
--
-- Not modelled: the controllers of the other services, which forward to them, except where a module
-- above names a handler; the start of the HTTP server; the loading of TLS keys and of the protocol
-- file; what a stream sends to its socket; the searches in catalogs; the components of the
-- dashboard; the daemon (in Go), the installer and the kits, which are other programs.
pub mod Prelude
pub mod World
pub mod NodeClient
pub mod Identity
pub mod Nodes
pub mod Servers
pub mod Auth
pub mod ApiKeys
pub mod Users
pub mod Roles
pub mod Backups
pub mod Tasks
pub mod Files
pub mod Downloads
pub mod Marketplace
pub mod Mods
pub mod Gateway
pub mod Guards
pub mod Denied
pub mod Billing
pub mod Support
pub mod Seed
pub mod Config
pub mod Http
pub mod Dashboard
pub mod Templates
pub mod Audit
pub mod Monitoring
mod Tests
