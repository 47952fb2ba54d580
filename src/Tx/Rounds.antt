-- ===== src/Tx/Rounds.antt =====
-- The loop of `execute`: what PUT and DELETE keep of the working copy, the loop keeps.
use httpkvdb.Base.{none, some, List, [], ◌∷◌, ◌++◌, inl, inr}
use httpkvdb.Base.Int.{ℤ}
use httpkvdb.Base.Bytes.{Bytes}
use httpkvdb.Model.{Result-cases, TxOperation, TxOperationResult, Transaction}
use httpkvdb.Storage.Disk.{Env}
use httpkvdb.Storage.Atomic.{AtomicTx}
use httpkvdb.Storage.Atomic
use httpkvdb.Tx.Execute.{
  OpKind, put, get, head, exists, delete, other, op_kind, op_at, Round, goes_on, aborts, run_kind,
  run_op, run_ops, stopped_with, Ending, finished, stopped, start_item,
}

module _ {Doc : Type 0} (env : Env Doc) (t : Transaction) (Good : AtomicTx → Type 0)
    (put_good : (atx : AtomicTx) (key value ct : Bytes)
      → Good atx
      → Good (Atomic.put env atx t.userspace_id key value ct).1)
    (delete_good : (atx : AtomicTx) (key : Bytes)
      → Good atx
      → Good (Atomic.delete atx t.userspace_id key).1) where
  abbrev RoundGood : Round → Type 0
  RoundGood (goes_on item atx) = Good atx
  RoundGood (aborts item reason e) = Unit {0}

  abbrev pub EndingGood : Ending → Type 0
  EndingGood (finished results atx) = Good atx
  EndingGood (stopped results reason e) = Unit {0}

  run_kind-RoundGood :
      (op : TxOperation) (item : TxOperationResult) (atx : AtomicTx) (k : OpKind)
      → Good atx
      → RoundGood (run_kind env t.userspace_id op item atx k)
  unfolding run_kind
  run_kind-RoundGood op item atx put h = put_good atx op.key op.body op.content_type h
  run_kind-RoundGood op item atx get h =
      elim (Result-cases (Atomic.get atx t.userspace_id op.key)) [
        | inl (rec, g) ↦ rw g h
        | inr (e, g) ↦ rw g tt
      ]
  run_kind-RoundGood op item atx head h =
      elim (Result-cases (Atomic.get atx t.userspace_id op.key)) [
        | inl (rec, g) ↦ rw g h
        | inr (e, g) ↦ rw g tt
      ]
  run_kind-RoundGood op item atx exists h = h
  run_kind-RoundGood op item atx delete h =
      elim (Result-cases (Atomic.delete atx t.userspace_id op.key).0) [
        | inl (version, g) ↦ rw g (delete_good atx op.key h)
        | inr (e, g) ↦ rw g tt
      ]
  run_kind-RoundGood op item atx other h = tt

  abbrev continue : List ℤ → List TxOperationResult → Round → Ending
  continue seqs results (aborts item reason e) = stopped_with results item reason e
  continue seqs results (goes_on item atx) = run_ops env t seqs (results ++ item ∷ []) atx

  continue-EndingGood :
      (seqs : List ℤ) (results : List TxOperationResult)
      → ((item : TxOperationResult) (atx : AtomicTx)
          → Good atx
          → EndingGood (run_ops env t seqs (results ++ item ∷ []) atx))
      → (r : Round) → RoundGood r
      → EndingGood (continue seqs results r)
  continue-EndingGood seqs results ih (aborts none reason e) h = tt
  continue-EndingGood seqs results ih (aborts (some item) reason e) h = tt
  continue-EndingGood seqs results ih (goes_on item atx) h = ih item atx h

  pub run_ops-EndingGood :
      (seqs : List ℤ) (results : List TxOperationResult) (atx : AtomicTx)
      → Good atx
      → EndingGood (run_ops env t seqs results atx)
  unfolding run_ops run_op
  run_ops-EndingGood [] results atx h = h
  run_ops-EndingGood (seq ∷ seqs) results atx h =
      let op = op_at t seq in
      continue-EndingGood seqs results
        (λ item atx' good. run_ops-EndingGood seqs (results ++ item ∷ []) atx' good) _
        (run_kind-RoundGood op (start_item seq op) atx (op_kind op.op_type) h)
