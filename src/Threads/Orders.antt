-- ===== src/Threads/Orders.antt =====
-- The commit of a transaction and its last operation, in either order.
use httpkvdb.Base.{◌≡◌, true, false, List, [], ◌∷◌, ◌++◌}
use httpkvdb.Base.Int.{ℤ, int_eq}
use httpkvdb.Base.Bytes.{Bytes, bytes_key}
use httpkvdb.Base.Dict.{insert}
use httpkvdb.Model.{Transaction, TxOperation, TxOperationResult, TxStatus}
use httpkvdb.Storage.Snapshot.{Snapshot}
use httpkvdb.Storage.Disk.{Env}
use httpkvdb.Storage.Store.{Store}
use httpkvdb.Storage.Atomic.{AtomicTx}
use httpkvdb.Storage.Atomic
use httpkvdb.Tx.Execute.{Round, goes_on, aborts, run_ops, stopped_with, Ending, finished, stopped}
use httpkvdb.Tx.Coordinator.{stamped}
use httpkvdb.Tx.Coordinator
use httpkvdb.Tx.Digest.{digest}
use httpkvdb.Threads.Local.{bare}

abbrev with_status : TxStatus → Transaction → Transaction
with_status status t = record t { status = status }

module _ {Doc : Type 0} (env : Env Doc) (t : Transaction) (status : TxStatus) where
  abbrev continue : Transaction → List ℤ → List TxOperationResult → Round → Ending
  continue u seqs results (aborts item reason e) = stopped_with results item reason e
  continue u seqs results (goes_on item atx) = run_ops env u seqs (results ++ item ∷ []) atx

module _ {Doc : Type 0} (env : Env Doc) (t : Transaction) (s : Store Doc) where
  abbrev EndsOpen : Ending → Type 0
  EndsOpen (finished results atx) = atx.closed ≡ false
  EndsOpen (stopped results reason e) = Unit {0}

  -- The data but for the transactions, as a working copy.
  abbrev base : AtomicTx
  base = record { contents = bare s.contents; closed = false }

-- A pending transaction with its last operation and its commit.
abbrev pub completed : {Doc : Type 0} → Env Doc → Transaction → TxOperation → Bytes → Transaction
completed env t op digest = record t {
  ops = insert t.ops op.seq (stamped env t.tx_id op);
  status = TxStatus.pending;
  commit_received = true;
  tx_digest = digest;
}
