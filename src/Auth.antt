-- ===== src/Auth.antt =====
-- internal/auth: API keys, JSON web tokens, and a cache of the principals that were found.
pub mod Token
pub mod Cache
pub mod Authenticator
pub mod Coherent
pub mod Refines
pub mod Bounds
pub mod Verified
