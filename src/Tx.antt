-- ===== src/Tx.antt =====
-- internal/tx: transactions whose operations arrive in separate requests.
pub mod Digest
pub mod Execute
pub mod Coordinator
pub mod Spec
pub mod Refines
pub mod Rounds
pub mod Frame
pub mod Atomicity
pub mod Requests
pub mod Outside
pub mod After
pub mod Expiry
pub mod Machine
pub mod Forever
pub mod Again
pub mod Sound
pub mod Same
pub mod Arrival
