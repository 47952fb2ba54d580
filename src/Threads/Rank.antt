-- ===== src/Threads/Rank.antt =====
-- How far a thread is from the end of what it does.
use httpkvdb.Base.{ℕ, ◌<◌, ◌≤◌, ◌⊎◌, ◌≡◌, refl, true, false, arith, inl, inr}
use httpkvdb.Golang.Crypto.{Std}
use httpkvdb.Storage.Disk.{Json}
use httpkvdb.Threads.Plan.{stop, save, run}
use httpkvdb.Threads.System.{
  Pc, load, scan, open_new, take, take_import, idle, planned, running, begun, working, import_ready,
  imported, leaving, critical, Shared, Move, nothing, write, enter, begin, no_begin, end, work,
  import_begin, import_no_begin, import_end, leave,
}

pub clash : false ≡ true → ⊥
clash p = cc

-- How many steps a thread is from its end, at most.
abbrev pub rank : Pc → ℕ
rank idle = 0
rank (planned stop) = 1
rank (planned (save t)) = 1
rank (planned (run t)) = 4
rank (running t) = 3
rank (begun t atx) = 2
rank (working job) = 2
rank (import_ready u records mode) = 3
rank (imported atx) = 2
rank leaving = 1

pub rank_idle : (q : Pc) → (q ≡ idle) ⊎ (0 < rank q)
rank_idle idle = inl refl
rank_idle (planned stop) = inr (omega arith)
rank_idle (planned (save t)) = inr (omega arith)
rank_idle (planned (run t)) = inr (omega arith)
rank_idle (running t) = inr (omega arith)
rank_idle (begun t atx) = inr (omega arith)
rank_idle (working job) = inr (omega arith)
rank_idle (import_ready u records mode) = inr (omega arith)
rank_idle (imported atx) = inr (omega arith)
rank_idle leaving = inr (omega arith)

pub rank_most : (q : Pc) → rank q ≤ 4
rank_most idle = omega arith
rank_most (planned stop) = omega arith
rank_most (planned (save t)) = omega arith
rank_most (planned (run t)) = omega arith
rank_most (running t) = omega arith
rank_most (begun t atx) = omega arith
rank_most (working job) = omega arith
rank_most (import_ready u records mode) = omega arith
rank_most (imported atx) = omega arith
rank_most leaving = omega arith

pub rank-critical : (q : Pc) → critical q ≡ true → (0 < rank q) × (rank q ≤ 3)
rank-critical idle c = absurd (clash c)
rank-critical (planned plan) c = absurd (clash c)
rank-critical (running t) c = (omega arith, omega arith)
rank-critical (begun t atx) c = (omega arith, omega arith)
rank-critical (working job) c = (omega arith, omega arith)
rank-critical (import_ready u records mode) c = (omega arith, omega arith)
rank-critical (imported atx) c = (omega arith, omega arith)
rank-critical leaving c = (omega arith, omega arith)

module _ {Doc : Type 0} (std : Std) (json : Json Doc) where
  -- Every step but the first brings a thread closer to its end.
  pub Move-rank :
      {i : ℕ} {m m' : Shared Doc} {p p' : Pc}
      → Move std json i m p m' p'
      → (p ≡ idle) ⊎ (rank p' < rank p)
  Move-rank (load io now p tx_id t method l) = inl refl
  Move-rank (scan io now tx_id t l) = inl refl
  Move-rank (open_new io now p total_ops timeout tx_id e l) = inl refl
  Move-rank (take job l) = inl refl
  Move-rank (take_import u records mode l) = inl refl
  Move-rank nothing = inr (omega arith)
  Move-rank (write io now) = inr (omega arith)
  Move-rank (enter l) = inr (omega arith)
  Move-rank (begin io now b) = inr (omega arith)
  Move-rank (no_begin io now b) = inr (omega arith)
  Move-rank (end io now) = inr (omega arith)
  Move-rank (work io now) = inr (omega arith)
  Move-rank (import_begin io now b) = inr (omega arith)
  Move-rank (import_no_begin io now b) = inr (omega arith)
  Move-rank (import_end io now) = inr (omega arith)
  Move-rank leave = inr (omega arith)
