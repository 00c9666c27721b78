-- ===== src/Auth.antt =====
-- Who may do what: components/server/src/auth.
pub mod Contexts
pub mod Issuers
pub mod Tokens
pub mod Handler
