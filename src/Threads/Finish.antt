-- ===== src/Threads/Finish.antt =====
-- No thread waits for ever: the steps of a thread and of the one that has the lock come to an end.
use httpkvdb.Base.{
  ℕ, zero, suc, Option, ◌<◌, ◌≤◌, ◌+◌, ◌≡◌, ◌≢◌, refl, sym, ◌∙◌, ap, true, some, arith, inl, inr,
}
use mathlib.Core.Path.{subst}
use native.Mathlib.Decide.{ℕ_discrete}
use httpkvdb.Golang.Crypto.{Std}
use httpkvdb.Storage.Disk.{Json}
use httpkvdb.Storage.Store.{Store}
use httpkvdb.Threads.System.{Pc, critical, Shared, Move, System, update, Reach}
use httpkvdb.Threads.Local.{Passes, Move-mutex}
use httpkvdb.Threads.Invariant.{update_cases}
use httpkvdb.Threads.Rank.{rank, rank_idle, rank_most, rank-critical, Move-rank}
use httpkvdb.Threads.Waiting.{
  update-same, update-other, Busy, moved, moved-Busy, Reach-Busy, MayMove, Finishes, done, after,
  someone,
}

-- The lock is not taken from one thread by the step of another.
held_before :
    {Doc : Type 0} (j k : ℕ) (m m' : Shared Doc) (p p' : Pc)
    → j ≢ k
    → Passes j m p m' p'
    → m'.mutex.holder ≡ some k
    → m.mutex.holder ≡ some k
held_before j k m m' p p' apart passes h = ground arith

one_holder : (h : Option ℕ) (j k : ℕ) → h ≡ some j → h ≡ some k → j ≡ k
one_holder h j k p q = cc (sym p ∙ q)

module _ {Doc : Type 0} (std : Std) (json : Json Doc) (i : ℕ) where
  -- What is left to do for thread `i`, and for another that has the lock.
  abbrev Left : ℕ → System Doc → Type 0
  Left n x =
      (rank (x.pc i) ≤ n)
      × ((k : ℕ) → i ≢ k → x.shared.mutex.holder ≡ some k → rank (x.pc i) + rank (x.pc k) ≤ n)

  -- A step of thread `i`
  own-Left :
      (n : ℕ) (x : System Doc) (m : Shared Doc) (p : Pc)
      → 0 < rank (x.pc i)
      → Move std json i x.shared (x.pc i) m p
      → Left (suc n) x
      → Left n (moved std json x i m p)
  own-Left n x m p more move (mine, others) = (
    subst (λ q. rank q ≤ n) (sym same) (omega (arith, less, mine)),
    λ k apart held.
        let before = held_before i k x.shared m (x.pc i) p apart (Move-mutex move) held in
        subst (λ q. rank q + rank (update x.pc i p k) ≤ n) (sym same)
          (subst (λ q. rank p + rank q ≤ n) (sym (update-other x.pc i p k apart))
            (omega (arith, less, others k apart before))),
  )
    where
      same : update x.pc i p i ≡ p
      same = update-same x.pc i p

      less : rank p < rank (x.pc i)
      less = elim (Move-rank std json move) [
        | inl stands ↦ absurd (omega (arith, more, ap rank stands))
        | inr l ↦ l
      ]

  -- A step of another thread that has the lock
  holder-Left :
      (n j : ℕ) (x : System Doc) (m : Shared Doc) (p : Pc)
      → i ≢ j
      → x.shared.mutex.holder ≡ some j
      → critical (x.pc j) ≡ true
      → Move std json j x.shared (x.pc j) m p
      → Left (suc n) x
      → Left n (moved std json x j m p)
  holder-Left n j x m p apart held c move (mine, others) = (
    subst (λ q. rank q ≤ n) (sym same) (omega (arith, more, others j apart held)),
    λ k away now_held.
        subst (λ q. rank q + rank (update x.pc j p k) ≤ n) (sym same)
          (update_cases (λ k q. m.mutex.holder ≡ some k → rank (x.pc i) + rank q ≤ n) x.pc j p
            (λ h. omega (arith, less, others j apart held))
            (λ k elsewhere h. absurd (
              elsewhere (
                one_holder x.shared.mutex.holder j k held
                  (held_before j k x.shared m (x.pc j) p elsewhere (Move-mutex move) h))))
            k now_held),
  )
    where
      same : update x.pc j p i ≡ x.pc i
      same = update-other x.pc j p i (λ e. apart (sym e))

      more : 0 < rank (x.pc j)
      more = (rank-critical (x.pc j) c).0

      less : rank p < rank (x.pc j)
      less = elim (Move-rank std json move) [
        | inl stands ↦ absurd (omega (arith, more, ap rank stands))
        | inr l ↦ l
      ]

  -- A step of any of the two
  next-Left :
      (n j : ℕ) (x : System Doc) (m : Shared Doc) (p : Pc)
      → ((k : ℕ) → Busy x.shared k (x.pc k))
      → 0 < rank (x.pc i)
      → MayMove std json i x.shared j
      → Move std json j x.shared (x.pc j) m p
      → Left (suc n) x
      → Left n (moved std json x j m p)
  next-Left n j x m p busy more may move left = elim (ℕ_discrete i j) [
    | yes e ↦
        subst (λ k. Move std json k x.shared (x.pc k) m p → Left n (moved std json x k m p)) e
          (λ own. own-Left n x m p more own left) move
    | no apart ↦ elim may [
      | inl e ↦ absurd (apart e)
      | inr held ↦ holder-Left n j x m p apart held (busy j held) move left
    ]
  ]

  ends :
      (n : ℕ) (x : System Doc)
      → ((j : ℕ) → Busy x.shared j (x.pc j))
      → Left n x
      → Finishes std json i n x
  ends zero x busy left = elim (rank_idle (x.pc i)) [
    | inl stands ↦ done stands
    | inr more ↦ absurd (omega (arith, left.0, more))
  ]
  ends (suc n) x busy left = elim (rank_idle (x.pc i)) [
    | inl stands ↦ done stands
    | inr more ↦
        after (λ io now. someone std json io now i x busy (x.pc i) refl more)
          (λ j m p may move.
            ends n (moved std json x j m p) (moved-Busy std json x j m p move busy)
              (next-Left n j x m p busy more may move left))
  ]

  -- Whatever the threads have done, a request, a round of the expiry or a handler that is under
  -- way waits for the thread that holds the lock at most. As long as it is not at its end, one
  -- of these two threads can make a step at any time and whatever the files do; and whichever
  -- steps they make, with any failures of files and while no other thread makes one, it is at
  -- its end after at most seven of them.
  pub comes_to_end : (s : Store Doc) (x : System Doc) → Reach std json s x → Finishes std json i 7 x
  comes_to_end s x reach = ends 7 x busy (omega (arith, rank_most (x.pc i)), both)
    where
      busy : (j : ℕ) → Busy x.shared j (x.pc j)
      busy = Reach-Busy std json reach

      both : (k : ℕ) → i ≢ k → x.shared.mutex.holder ≡ some k → rank (x.pc i) + rank (x.pc k) ≤ 7
      both k apart held =
          omega (arith, rank_most (x.pc i), (rank-critical (x.pc k) (busy k held)).1)
