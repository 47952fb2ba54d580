-- ===== src/Threads/Invariant.antt =====
-- What holds in every reachable state: at most one thread is between Lock and Unlock, and an
-- execution under way has the data of the store.
use httpkvdb.Base.{ℕ, ◌≡◌, ◌≢◌, sym, ◌∙◌, true, false, some, arith, inl, inr, Bool-cases}
use mathlib.Core.Path.{subst}
use mathlib.Core.Logic.{ite}
use native.Mathlib.Decide.{ℕ_discrete}
use httpkvdb.Golang.Crypto.{Std}
use httpkvdb.Storage.Snapshot.{Snapshot}
use httpkvdb.Storage.Disk.{Json}
use httpkvdb.Storage.Store.{Store}
use httpkvdb.Storage.Atomic.{clone_snapshot}
use httpkvdb.Threads.System.{Pc, critical, Shared, Move, System, update, Reach, start, later}
use httpkvdb.Threads.Local.{Local, Local-txs, Local-free, Move-Local, Move-bare, Passes, Move-mutex}

pub update_cases :
    {A : Type 0} (P : ℕ → A → Type 0) (f : ℕ → A) (i : ℕ) (a : A)
    → P i a
    → ((j : ℕ) → i ≢ j → P j (f j))
    → (j : ℕ) → P j (update f i a j)
update_cases P f i a new old j = elim (ℕ_discrete i j) as (λ d. P j (ite d a (f j))) [
  | yes e ↦ subst (λ k. P k a) e new
  | no n ↦ old j n
]

-- A thread between Lock and Unlock holds the lock.
abbrev Owns : {Doc : Type 0} → Shared Doc → ℕ → Pc → Type 0
Owns m j p = critical p ≡ true → m.mutex.holder ≡ some j

module _ {Doc : Type 0} (std : Std) (json : Json Doc)
    (exact : (d d' : Snapshot) → clone_snapshot json d ≡ some d' → d' ≡ d) where
  pub record Inv (m : Shared Doc) (pc : ℕ → Pc) : Type 0 where
    pub owner : (j : ℕ) → Owns m j (pc j)
    pub here : (j : ℕ) → Local std json m.store (pc j)

  owner-same :
      (m m' : Shared Doc) (p p' : Pc) (i : ℕ) → Passes i m p m' p' → Owns m i p → Owns m' i p'
  owner-same m m' p p' i passes own c = ground arith

  owner-other :
      (m m' : Shared Doc) (p p' : Pc) (i j : ℕ)
      → i ≢ j
      → (q : Pc) → Passes i m p m' p'
      → Owns m i p
      → Owns m j q
      → Owns m' j q
  owner-other m m' p p' i j apart q passes mine own c = ground arith

  -- Two threads are not both between Lock and Unlock.
  alone :
      (m : Shared Doc) (i j : ℕ) (p q : Pc)
      → Owns m i p
      → Owns m j q
      → i ≢ j
      → critical p ≡ true
      → critical q ≡ false
  alone m i j p q mine own apart c = elim (Bool-cases (critical q)) [
    | inr n ↦ n
    | inl y ↦ absurd (apart (some-inj (sym (mine c) ∙ own y)))
  ]
    where
      some-inj : {a b : ℕ} → some a ≡ some b → a ≡ b
      some-inj e = cc

  here-other :
      {m m' : Shared Doc} {p p' : Pc} (i j : ℕ)
      → i ≢ j
      → (q : Pc) → Move std json i m p m' p'
      → Owns m i p
      → Owns m j q
      → Local std json m.store q
      → Local std json m'.store q
  here-other {m} {m'} {p} {p'} i j apart q move mine own h = elim (Move-bare move) [
    | inl same ↦ Local-txs std json m.store m'.store q same h
    | inr c ↦ Local-free std json m.store m'.store q (alone m i j p q mine own apart c) h
  ]

  Move-Inv :
      {m m' : Shared Doc} {p' : Pc} (pc : ℕ → Pc) (i : ℕ)
      → Move std json i m (pc i) m' p'
      → Inv m pc
      → Inv m' (update pc i p')
  Move-Inv {m} {m'} {p'} pc i move inv = record {
    owner =
        update_cases (Owns m') pc i p' (owner-same m m' (pc i) p' i (Move-mutex move) (inv.owner i))
          (λ j apart.
            owner-other m m' (pc i) p' i j apart (pc j) (Move-mutex move) (inv.owner i)
              (inv.owner j));
    here =
        update_cases (λ j q. Local std json m'.store q) pc i p'
          (Move-Local std json exact move (inv.here i))
          (λ j apart. here-other i j apart (pc j) move (inv.owner i) (inv.owner j) (inv.here j));
  }

  pub Reach-Inv : {s : Store Doc} {x : System Doc} → Reach std json s x → Inv x.shared x.pc
  Reach-Inv start = record { owner = λ j c. absurd (clash c); here = λ j. tt }
    where
      clash : false ≡ true → ⊥
      clash p = cc
  Reach-Inv (later {x = x} reach i move) = Move-Inv x.pc i move (Reach-Inv reach)
