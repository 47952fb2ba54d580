-- ===== src/Storage.antt =====
-- internal/storage/storage.go: the snapshot in memory, the file behind it, and the store.
pub mod Snapshot
pub mod Disk
pub mod Store
pub mod Accounts
pub mod Atomic
pub mod Records
pub mod Operations
pub mod Durable
pub mod LongNames
pub mod Erasure
pub mod Rekey
pub mod Import
pub mod LostUpdates
pub mod Sound
