-- ===== src/Http.antt =====
-- internal/httpapi and internal/observe: requests over HTTP.
pub mod Message
pub mod Server
pub mod Kv
pub mod Transfer
pub mod Transactions
pub mod Admin
pub mod Router
pub mod After
pub mod Isolation
pub mod Rotation
pub mod ReadBack
pub mod Transfers
pub mod Creation
pub mod Stale
pub mod Coherence
pub mod Sound
