-- ===== src/World.antt =====
-- The state that the services share: the database, the connections to the nodes, the clock and
-- what has been sent.
pub mod Schema
pub mod Records
pub mod Daemon
pub mod State
pub mod Action
pub mod Keeps
