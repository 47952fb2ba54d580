-- ===== src/Threads/Lock.antt =====
-- internal/lock/serial.go: one sync.Mutex.
use httpkvdb.Base.{ℕ, Option, none, some}

-- Who holds the mutex, by the number of its thread.
pub record Serializable : Type 0 where
  pub holder : Option ℕ

-- Lock, which waits where there is no result.
unfoldable pub lock : ℕ → Serializable → Option Serializable
lock i s = elim s.holder [ none ↦ some (record { holder = some i }) | some j ↦ none ]

unfoldable pub unlock : Serializable → Serializable
unlock s = record { holder = none }
