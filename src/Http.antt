-- ===== src/Http.antt =====
-- The HTTP interface: controllers of backend/src, with the permissions that their decorators
-- require, behind the guards and the validation of bodies that main.ts sets up.
pub mod Answer
pub mod Body
pub mod Servers
pub mod Users
pub mod Admin
