-- ===== src/Backend.antt =====
-- The parts of the Go backend that decide what the frontend shows: permissions, gates, policies.
pub mod Http
pub mod Rbac
pub mod Gates
pub mod Routes
pub mod Policy
pub mod Handler
pub mod Bearer
pub mod Integers
pub mod AuditLog
pub mod Base32
pub mod Totp
pub mod Accounts
pub mod RateLimit
pub mod Middleware
pub mod Postgres
