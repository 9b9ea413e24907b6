-- ===== src/Servers.antt =====
-- ServersService (backend/src/servers/servers.service.ts), method by method in the children.
pub mod Access
pub mod Ports
pub mod Create
pub mod Power
pub mod Manage
pub mod Books
pub mod Capacity
pub mod Release
pub mod Held
pub mod Limits
