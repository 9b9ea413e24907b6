-- ===== src/Auth.antt =====
-- AuthService (backend/src/auth/auth.service.ts) and the guards.
pub mod Tokens
pub mod TwoFactor
pub mod Accounts
pub mod OAuth
