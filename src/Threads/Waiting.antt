-- ===== src/Threads/Waiting.antt =====
-- Whom a thread may have to wait for, and that one of these can make a step.
use httpkvdb.Base.{
  ℕ, suc, ◌<◌, ◌⊎◌, ◌≡◌, ◌≢◌, refl, sym, true, none, some, arith, inl, inr, Option-cases,
}
use mathlib.Core.Path.{subst}
use mathlib.Core.Logic.{ite}
use native.Mathlib.Decide.{ℕ_discrete}
use httpkvdb.Golang.Crypto.{Std}
use httpkvdb.Model.{Time, Transaction, Result-cases}
use httpkvdb.Storage.Disk.{Json, Io, Env}
use httpkvdb.Storage.Store.{Store}
use httpkvdb.Storage.Atomic.{begin_atomic}
use httpkvdb.Tx.Machine.{world}
use httpkvdb.Threads.Lock.{lock}
use httpkvdb.Threads.Plan.{stop, save, run}
use httpkvdb.Threads.System.{
  Pc, idle, planned, running, begun, working, import_ready, imported, leaving, critical, Shared,
  Move, load, scan, open_new, take, take_import, nothing, write, enter, begin, no_begin, end, work,
  import_begin, import_no_begin, import_end, leave, System, update, Reach, start, later,
}
use httpkvdb.Threads.Local.{Passes, Move-mutex}
use httpkvdb.Threads.Invariant.{update_cases}
use httpkvdb.Threads.Rank.{clash, rank}

module _ {A : Type 0} (f : ℕ → A) (i : ℕ) (a : A) where
  pub update-same : update f i a i ≡ a
  update-same = elim (ℕ_discrete i i) as (λ d. ite d a (f i) ≡ a) [
    | yes e ↦ refl
    | no n ↦ absurd (n refl)
  ]

  pub update-other : (j : ℕ) → i ≢ j → update f i a j ≡ f j
  update-other j apart = elim (ℕ_discrete i j) as (λ d. ite d a (f j) ≡ f j) [
    | yes e ↦ absurd (apart e)
    | no n ↦ refl
  ]

-- The holder of the lock is between Lock and Unlock.
abbrev pub Busy : {Doc : Type 0} → Shared Doc → ℕ → Pc → Type 0
Busy m j p = m.mutex.holder ≡ some j → critical p ≡ true

module _ {Doc : Type 0} (std : Std) (json : Json Doc) where
  Busy-same :
      (m m' : Shared Doc) (p p' : Pc) (i : ℕ) → Passes i m p m' p' → Busy m i p → Busy m' i p'
  Busy-same m m' p p' i passes busy h = ground arith

  Busy-other :
      (m m' : Shared Doc) (p p' : Pc) (i j : ℕ)
      → i ≢ j
      → (q : Pc) → Passes i m p m' p'
      → Busy m j q
      → Busy m' j q
  Busy-other m m' p p' i j apart q passes busy h = ground arith

  abbrev pub moved : System Doc → ℕ → Shared Doc → Pc → System Doc
  moved x i m p = record { shared = m; pc = update x.pc i p }

  pub moved-Busy :
      (x : System Doc) (i : ℕ) (m : Shared Doc) (p : Pc)
      → Move std json i x.shared (x.pc i) m p
      → ((j : ℕ) → Busy x.shared j (x.pc j))
      → (j : ℕ) → Busy m j ((moved x i m p).pc j)
  moved-Busy x i m p move busy =
      update_cases (Busy m) x.pc i p (Busy-same x.shared m (x.pc i) p i (Move-mutex move) (busy i))
        (λ j apart. Busy-other x.shared m (x.pc i) p i j apart (x.pc j) (Move-mutex move) (busy j))

  pub Reach-Busy :
      {s : Store Doc} {x : System Doc} → Reach std json s x → (j : ℕ) → Busy x.shared j (x.pc j)
  Reach-Busy start = λ j h. absurd (none_held h)
    where
      none_held : {k : ℕ} → none ≡ some k → ⊥
      none_held p = cc
  Reach-Busy (later {x = x} reach i {m = m} {p = p} move) =
      moved-Busy x i m p move (Reach-Busy reach)

  -- A thread that `i` may have to wait for: itself, and the holder of the lock
  abbrev pub MayMove : ℕ → Shared Doc → ℕ → Type 0
  MayMove i m j = (i ≡ j) ⊎ (m.mutex.holder ≡ some j)

  -- The step is made at this time, with the files as these calls leave them. Those that use neither
  -- are free in both.
  abbrev pub MadeWith :
      (io : Io Doc) (now : Time) {j : ℕ} {m m' : Shared Doc} {q p : Pc}
      → Move std json j m q m' p
      → Type 0
  MadeWith io now (load io' now' p tx_id t method l) = (io' ≡ io) × (now' ≡ now)
  MadeWith io now (scan io' now' tx_id t l) = (io' ≡ io) × (now' ≡ now)
  MadeWith io now (open_new io' now' p total_ops timeout tx_id e l) = (io' ≡ io) × (now' ≡ now)
  MadeWith io now (write io' now') = (io' ≡ io) × (now' ≡ now)
  MadeWith io now (begin io' now' b) = (io' ≡ io) × (now' ≡ now)
  MadeWith io now (no_begin io' now' b) = (io' ≡ io) × (now' ≡ now)
  MadeWith io now (end io' now') = (io' ≡ io) × (now' ≡ now)
  MadeWith io now (work io' now') = (io' ≡ io) × (now' ≡ now)
  MadeWith io now (import_begin io' now' b) = (io' ≡ io) × (now' ≡ now)
  MadeWith io now (import_no_begin io' now' b) = (io' ≡ io) × (now' ≡ now)
  MadeWith io now (import_end io' now') = (io' ≡ io) × (now' ≡ now)
  MadeWith io now nothing = Unit {0}
  MadeWith io now (enter l) = Unit {0}
  MadeWith io now (take job l) = Unit {0}
  MadeWith io now (take_import u records mode l) = Unit {0}
  MadeWith io now leave = Unit {0}

  -- A step of a thread at a time, with what the files do then.
  abbrev pub Step : Io Doc → Time → ℕ → Shared Doc → Pc → Type 0
  Step io now j m q =
      (m' : Shared Doc) × (p : Pc) × (move : Move std json j m q m' p) × MadeWith io now move

  -- Thread `i` is idle, or one of these threads can make a step, whatever the files do and at any
  -- time, and every step that one of them can make leads to where this holds with `n` less by one.
  pub data Finishes (i : ℕ) : ℕ → System Doc → Type 0 where
    done : {n : ℕ} {x : System Doc} → x.pc i ≡ idle → Finishes i n x
    after :
        {n : ℕ} {x : System Doc}
        → ((io : Io Doc) (now : Time)
            → (j : ℕ) × MayMove i x.shared j × Step io now j x.shared (x.pc j))
        → ((j : ℕ) (m : Shared Doc) (p : Pc)
            → MayMove i x.shared j
            → Move std json j x.shared (x.pc j) m p
            → Finishes i n (moved x j m p))
        → Finishes i (suc n) x

module _ {Doc : Type 0} (std : Std) (json : Json Doc) where
  module _ (io : Io Doc) (now : Time) where
    abbrev env : Env Doc
    env = world std json io now

    -- A thread that has the lock can make a step.
    critical-Step :
        (j : ℕ) (m : Shared Doc) (q : Pc) → critical q ≡ true → Step std json io now j m q
    critical-Step j m idle c = absurd (clash c)
    critical-Step j m (planned plan) c = absurd (clash c)
    critical-Step j m (running t) c = elim (Result-cases (begin_atomic env m.store)) [
      | inl (atx, b) ↦ (m, begun t atx, begin io now b, (refl, refl))
      | inr (e, b) ↦ (m, leaving, no_begin io now b, (refl, refl))
    ]
    critical-Step j m (begun t atx) c = (_, leaving, end io now, (refl, refl))
    critical-Step j m (working job) c = (_, leaving, work io now, (refl, refl))
    critical-Step j m (import_ready u records mode) c =
        elim (Result-cases (begin_atomic env m.store)) [
          | inl (atx, b) ↦ (m, imported _, import_begin io now b, (refl, refl))
          | inr (e, b) ↦ (m, leaving, import_no_begin io now b, (refl, refl))
        ]
    critical-Step j m (imported atx) c = (_, leaving, import_end io now, (refl, refl))
    critical-Step j m leaving c = (_, idle, leave, tt)

    -- So one of the threads can, that `i` may have to wait for.
    module _ (i : ℕ) (x : System Doc) (busy : (j : ℕ) → Busy x.shared j (x.pc j)) where
      enters :
          (t : Transaction)
          → x.shared.mutex.holder ≡ none
          → Step std json io now i x.shared (planned (run t))
      unfolding lock
      enters t free =
          (_, running t, enter {l = record { holder = some i }} (rw (free, lock) refl), tt)

      own :
          (q : Pc)
          → x.pc i ≡ q
          → Step std json io now i x.shared q
          → (j : ℕ) × MayMove std json i x.shared j × Step std json io now j x.shared (x.pc j)
      own q at step = (i, inl refl, subst (Step std json io now i x.shared) (sym at) step)

      pub someone :
          (q : Pc)
          → x.pc i ≡ q
          → 0 < rank q
          → (j : ℕ) × MayMove std json i x.shared j × Step std json io now j x.shared (x.pc j)
      someone idle at more = absurd (omega (arith, more))
      someone (planned stop) at more = own _ at (_, idle, nothing, tt)
      someone (planned (save t)) at more = own _ at (_, idle, write io now, (refl, refl))
      someone (planned (run t)) at more = elim (Option-cases x.shared.mutex.holder) [
        | inl free ↦ own _ at (enters t free)
        | inr (j, held) ↦ (j, inr held, critical-Step j x.shared (x.pc j) (busy j held))
      ]
      someone q at more = own q at (critical-Step i x.shared q refl)
