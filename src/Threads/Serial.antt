-- ===== src/Threads/Serial.antt =====
-- The global lock makes transactions one after the other with all that takes it.
use httpkvdb.Base.{
  ℕ, ◌≡◌, refl, sym, ◌∙◌, ap, false, none, some, List, [], ◌∷◌, ◌++◌, arith, inl, inr, Bool-cases,
}
use mathlib.Core.Path.{subst, ap₂}
use httpkvdb.Base.Int.{ℤ}
use httpkvdb.Base.Bytes.{Bytes, bytes_eq_iff, bytes_key}
use httpkvdb.Base.Dict.{Dict, insert, lookup, lookup-insert}
use httpkvdb.Golang.Crypto.{Std}
use httpkvdb.Model.{Time, Transaction, TxOperation, TxOperationResult}
use httpkvdb.Storage.Snapshot.{Snapshot, put_into, space_of, get_from, delete_from}
use httpkvdb.Storage.Disk.{Json, Io, Env}
use httpkvdb.Storage.Store.{Store, save, get_tx}
use httpkvdb.Storage.Atomic.{AtomicTx, clone_snapshot, commit}
use httpkvdb.Storage.Atomic
use httpkvdb.Tx.Atomicity.{execute_begun}
use httpkvdb.Tx.Execute.{
  OpKind, put, get, head, exists, delete, other, op_kind, op_at, Round, goes_on, aborts, run_kind,
  run_op, run_ops, stopped_with, Ending, finished, stopped, start_item, all_seqs, conclude, execute,
  committed_tx, Executed,
}
use httpkvdb.Tx.Machine.{world}
use httpkvdb.Threads.System.{begun, System, Reach}
use httpkvdb.Threads.Local.{bare, Local}
use httpkvdb.Threads.Invariant.{Reach-Inv}

abbrev Txs : Type 0
Txs = Dict Bytes Transaction

-- The working copy with other transactions in it.
abbrev pub with_txs : Txs → AtomicTx → AtomicTx
with_txs txs atx = let d = atx.contents in record atx { contents = record d { txs = txs } }

abbrev round_with : Txs → Round → Round
round_with txs (goes_on item atx) = goes_on item (with_txs txs atx)
round_with txs (aborts item reason e) = aborts item reason e

abbrev pub ending_with : Txs → Ending → Ending
ending_with txs (finished results atx) = finished results (with_txs txs atx)
ending_with txs (stopped results reason e) = stopped results reason e

module _ {Doc : Type 0} (env : Env Doc) (t : Transaction) (txs : Txs) where
  run_kind-with :
      (op : TxOperation) (item : TxOperationResult) (atx : AtomicTx) (k : OpKind)
      → run_kind env t.userspace_id op item (with_txs txs atx) k
        ≡ round_with txs (run_kind env t.userspace_id op item atx k)
  unfolding run_kind Atomic.put Atomic.get Atomic.exists Atomic.delete put_into space_of get_from
      delete_from
  run_kind-with op item atx put = refl
  run_kind-with op item atx get = ground arith
  run_kind-with op item atx head = ground arith
  run_kind-with op item atx exists = ground arith
  run_kind-with op item atx delete = ground arith
  run_kind-with op item atx other = refl

  abbrev continue : List ℤ → List TxOperationResult → Round → Ending
  continue seqs results (aborts item reason e) = stopped_with results item reason e
  continue seqs results (goes_on item atx) = run_ops env t seqs (results ++ item ∷ []) atx

  continue-with :
      (seqs : List ℤ) (results : List TxOperationResult)
      → ((item : TxOperationResult) (atx : AtomicTx)
          → run_ops env t seqs (results ++ item ∷ []) (with_txs txs atx)
            ≡ ending_with txs (run_ops env t seqs (results ++ item ∷ []) atx))
      → (r : Round)
      → continue seqs results (round_with txs r) ≡ ending_with txs (continue seqs results r)
  continue-with seqs results ih (aborts none reason e) = refl
  continue-with seqs results ih (aborts (some item) reason e) = refl
  continue-with seqs results ih (goes_on item atx) = ih item atx

  pub run_ops-with :
      (seqs : List ℤ) (results : List TxOperationResult) (atx : AtomicTx)
      → run_ops env t seqs results (with_txs txs atx)
        ≡ ending_with txs (run_ops env t seqs results atx)
  unfolding run_ops run_op
  run_ops-with [] results atx = refl
  run_ops-with (seq ∷ seqs) results atx =
      let op = op_at t seq in
      ap (continue seqs results) (run_kind-with op (start_item seq op) atx (op_kind op.op_type))
      ∙ continue-with seqs results (λ item atx'. run_ops-with seqs (results ++ item ∷ []) atx') _

-- The same data but for the transactions, and the same transaction under the identifier.
abbrev pub SameOutcome :
    {Doc : Type 0} → Bytes → Executed × Store Doc → Executed × Store Doc → Type 0
SameOutcome tx_id x y =
    (bare x.1.contents ≡ bare y.1.contents) × (get_tx x.1 tx_id ≡ get_tx y.1 tx_id)

module _ {Doc : Type 0} (env : Env Doc) (t : Transaction) (s : Store Doc) where
  conclude-with :
      (txs txs' : Txs) (e : Ending)
      → SameOutcome t.tx_id
          (conclude env t s (ending_with txs e))
          (conclude env t s (ending_with txs' e))
  unfolding conclude commit Atomic.save_tx save get_tx committed_tx lookup insert
  conclude-with txs txs' (stopped results reason e) = (refl, refl)
  conclude-with txs txs' (finished results atx) = elim (Bool-cases atx.closed) [
    | inl y ↦ rw (y, conclude, commit, Atomic.save_tx) (refl, refl)
    | inr n ↦
        let id = t.tx_id in
        let same = (bytes_eq_iff id id).1 refl in
        let t' = committed_tx t results in
        rw (n, conclude, commit, Atomic.save_tx)
          (refl, rw (lookup-insert txs id t' id, lookup-insert txs' id t' id, same) refl)
  ]

  -- The working copy and the data of the store come from the same data but for the transactions.
  abbrev base : AtomicTx
  base = record { contents = bare s.contents; closed = false }

  rebuilt :
      (atx : AtomicTx)
      → atx.closed ≡ false
      → bare atx.contents ≡ bare s.contents
      → atx ≡ with_txs atx.contents.txs base
  rebuilt atx c b =
      ap₂ (λ closed d. record { contents = record d { txs = atx.contents.txs }; closed = closed }) c
        b

  conclude-serial :
      (atx : AtomicTx)
      → atx.closed ≡ false
      → bare atx.contents ≡ bare s.contents
      → SameOutcome t.tx_id (conclude env t s (run_ops env t (all_seqs t) [] atx)) (
          conclude env t s
            (run_ops env t (all_seqs t) [] (record { contents = s.contents; closed = false })))
  conclude-serial atx c b =
      let e = run_ops env t (all_seqs t) [] base in
      let mine =
        ap (run_ops env t (all_seqs t) []) (rebuilt atx c b)
        ∙ run_ops-with env t atx.contents.txs (all_seqs t) [] base in
      let theirs = run_ops-with env t s.contents.txs (all_seqs t) [] base in
      rw (mine, theirs) (conclude-with atx.contents.txs s.contents.txs e)

module _ {Doc : Type 0} (std : Std) (json : Json Doc)
    (exact : (d : Snapshot) → clone_snapshot json d ≡ some d) where
  pub copies : (d d' : Snapshot) → clone_snapshot json d ≡ some d' → d' ≡ d
  copies d d' c = some-inj (sym c ∙ exact d)
    where
      some-inj : {d d' : Snapshot} → some d ≡ some d' → d ≡ d'
      some-inj p = cc

  -- Whatever requests to the coordinator, rounds of the expiry and handlers with the global lock
  -- run at the same time, in any order and with any failures of files: when an execution ends,
  -- it leaves the data, but for the other transactions, and its own transaction as an execution
  -- would that starts and ends at that moment. A JSON copy of the data is the data.
  pub executions_serial :
      (s0 : Store Doc) (x : System Doc) (i : ℕ) (t : Transaction) (atx : AtomicTx) (io : Io Doc)
      (now : Time)
      → Reach std json s0 x
      → x.pc i ≡ begun t atx
      → (let env = world std json io now in
          let s = x.shared.store in
          SameOutcome t.tx_id
            (conclude env t s (run_ops env t (all_seqs t) [] atx))
            (execute env t s))
  executions_serial s0 x i t atx io now reach at =
      let env = world std json io now in
      let s = x.shared.store in
      let here = (Reach-Inv std json copies reach).here i in
      let (fit, open_tx, same) = subst (Local std json s) at here in
      subst (λ y. SameOutcome t.tx_id (conclude env t s (run_ops env t (all_seqs t) [] atx)) y)
        (sym (execute_begun env t s fit (exact s.contents)))
        (conclude-serial env t s atx open_tx same)
