-- ===== src/Auth.antt =====
-- internal/api/auth: credentials, tokens and encryption.
pub mod Credentials
pub mod Security
pub mod Containers
pub mod Roundtrip
pub mod Logins
pub mod Middleware
pub mod Guarded
pub mod Tests
