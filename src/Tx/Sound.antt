-- ===== src/Tx/Sound.antt =====
-- The execution of a transaction keeps the data sound.
use httpkvdb.Base.{false, [], inl, inr, Bool-cases, Option-cases}
use httpkvdb.Model.{Transaction}
use httpkvdb.Storage.Disk.{Env}
use httpkvdb.Storage.Store.{Store, save}
use httpkvdb.Storage.Atomic.{AtomicTx, clone_snapshot, begin_atomic, commit}
use httpkvdb.Storage.Atomic
use httpkvdb.Storage.Sound.{IsSound, put_into-IsSound, delete_from-IsSound, with_tx-IsSound}
use httpkvdb.Storage.Sound.Methods.{Holds, save_tx-Holds}
use httpkvdb.Tx.Outside.{IsFaithful}
use httpkvdb.Tx.Rounds.{run_ops-EndingGood}
use httpkvdb.Tx.Atomicity.{is_mismatch}
use httpkvdb.Tx.Execute.{
  run_ops, Ending, finished, stopped, all_seqs, conclude, execute, committed_tx,
}

module _ {Doc : Type 0} (env : Env Doc) (t : Transaction) where
  abbrev Good : AtomicTx → Type 0
  Good atx = IsSound env.std atx.contents

  abbrev EndsGood : Ending → Type 0
  EndsGood (finished results atx) = Good atx
  EndsGood (stopped results reason e) = Unit {0}

  loop_good :
      (s : Store Doc)
      → Holds env s
      → EndsGood (run_ops env t (all_seqs t) [] (record { contents = s.contents; closed = false }))
  unfolding Atomic.put Atomic.delete
  loop_good s h =
      run_ops-EndingGood env t Good
        (λ atx key value ct g.
          put_into-IsSound env.std atx.contents g env.now t.userspace_id key value ct)
        (λ atx key g. delete_from-IsSound env.std atx.contents g t.userspace_id key) (all_seqs t) []
        _ h

  conclude-Holds :
      (s : Store Doc) (e : Ending) → Holds env s → EndsGood e → Holds env (conclude env t s e).1
  unfolding conclude commit Atomic.save_tx save
  conclude-Holds s (stopped results reason e) h good = save_tx-Holds env s h _
  conclude-Holds s (finished results atx) h good = elim (Bool-cases atx.closed) [
    | inl y ↦ rw (y, conclude, commit, Atomic.save_tx) h
    | inr n ↦
        rw (n, conclude, commit, Atomic.save_tx)
          (with_tx-IsSound env.std atx.contents good (committed_tx t results))
  ]

  pub execute-Holds :
      (s : Store Doc) → Holds env s → IsFaithful env s → Holds env (execute env t s).1
  unfolding execute begin_atomic
  execute-Holds s h faithful = elim (Bool-cases (is_mismatch env t)) [
    | inl m ↦ rw (m, execute) (save_tx-Holds env s h _)
    | inr m ↦ elim (Option-cases (clone_snapshot env.json s.contents)) [
      | inl c ↦ rw (m, execute, c, begin_atomic) h
      | inr (d, c) ↦
          rw (m, execute, c, begin_atomic)
            (rw (faithful d c) (conclude-Holds s _ h (loop_good s h)))
    ]
  ]
