-- ===== src/Tests.antt =====
-- A small instance of the state and the environment, and the theorems at it.
mod Demo
mod Servers
mod Identity
mod Operations
mod Access
mod Support
mod Files
mod Mods
mod Http
mod Platform
