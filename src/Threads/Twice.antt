-- ===== src/Threads/Twice.antt =====
-- Two requests for one transaction at the same time: what a stale copy undoes.
use httpkvdb.Base.{◌≡◌, refl, true, false, ◌||◌, not, ◌&&◌, none, length, arith, ltb}
use httpkvdb.Base.Int.{ℤ, eq_ℤ, pos, ltb_ℤ, int_eq}
use httpkvdb.Base.Bytes.{Bytes, bytes_eq_iff, bytes_key, is_empty}
use httpkvdb.Base.Dict.{lookup, insert, lookup-insert}
use httpkvdb.Model.{Principal, Transaction, TxOperation, TxStatus, ok}
use httpkvdb.Storage.Disk.{Env}
use httpkvdb.Storage.Store.{Store, get_tx, save_tx}
use httpkvdb.Storage.Store
use httpkvdb.Tx.Execute.{execute}
use httpkvdb.Tx.Coordinator.{is_open, owns, load_owned, expire_if_needed, mutable, stamped}
use httpkvdb.Tx.Coordinator
use httpkvdb.Threads.Plan.{save, guarded, accept_plan, add_plan, perform}

module _ {Doc : Type 0} (env : Env Doc) (s : Store Doc) where
  pub get_tx-save_tx : (t : Transaction) → get_tx (save_tx env s t).1 t.tx_id ≡ ok t
  unfolding get_tx save_tx Store.save
  get_tx-save_tx t =
      ground (arith, lookup-insert s.contents.txs t.tx_id t t.tx_id, bytes_eq_iff t.tx_id t.tx_id)

-- AddOp on a pending transaction whose commit has not arrived saves it with the operation.
pub add_plan-pending :
    {Doc : Type 0} (env : Env Doc) (t : Transaction) (tx_id : Bytes) (op : TxOperation)
    → t.commit_received ≡ false
    → t.status ≡ TxStatus.pending
    → ltb t.deadline env.now ≡ false
    → lookup t.ops op.seq ≡ none
    → ltb_ℤ op.seq (pos 1) || ltb_ℤ t.total_ops op.seq || is_empty op.op_id ≡ false
    → add_plan env t tx_id op
      ≡ save
          (record t { ops = insert t.ops op.seq (stamped env tx_id op); status = TxStatus.pending })
unfolding add_plan guarded accept_plan
add_plan-pending env t tx_id op no_commit pending early new fine = ground arith

module _ {Doc : Type 0} (env : Env Doc) (s : Store Doc) (p : Principal) (t : Transaction) where
  -- Commit on a complete open transaction executes it.
  pub commit_runs :
      (tx_id : Bytes) (total_ops : ℤ) (digest : Bytes)
      → get_tx s tx_id ≡ ok t
      → owns p t ≡ true
      → t.status ≡ TxStatus.pending
      → ltb t.deadline env.now ≡ false
      → not (eq_ℤ total_ops (pos 0)) && not (eq_ℤ total_ops t.total_ops) ≡ false
      → ltb_ℤ (pos (length t.ops)) t.total_ops ≡ false
      → (Coordinator.commit env s p tx_id total_ops digest).1
        ≡ (execute env (record t { commit_received = true; tx_digest = digest }) s).1
  unfolding Coordinator.commit load_owned mutable expire_if_needed
  commit_runs tx_id total_ops digest there mine pending early fits full = ground arith

-- The transaction that AddOp saves, as it would be without another request.
abbrev pub pending_with : {Doc : Type 0} → Env Doc → Transaction → TxOperation → Transaction
pending_with env t op = record t {
  ops = insert t.ops op.seq (stamped env t.tx_id op);
  status = TxStatus.pending;
}

-- AddOp that has loaded a pending transaction without its last operation, and saves it when
-- anything has happened to it since, also when it was committed: the transaction is pending
-- again, with all operations and the result that it had when it was loaded, and a Commit of its
-- owner before the deadline executes the operations once more.
pub executed_again :
    {Doc : Type 0} (env env' : Env Doc) (s : Store Doc) (p : Principal) (t : Transaction)
    (op : TxOperation) (tx_digest : Bytes)
    → t.commit_received ≡ false
    → t.status ≡ TxStatus.pending
    → ltb t.deadline env.now ≡ false
    → ltb t.deadline env'.now ≡ false
    → lookup t.ops op.seq ≡ none
    → ltb_ℤ op.seq (pos 1) || ltb_ℤ t.total_ops op.seq || is_empty op.op_id ≡ false
    → ltb_ℤ (pos (length (pending_with env t op).ops)) t.total_ops ≡ false
    → owns p t ≡ true
    → (let u = pending_with env t op in
        let s' = perform env (add_plan env t t.tx_id op) s in
        (get_tx s' t.tx_id ≡ ok u)
        × ((Coordinator.commit env' s' p t.tx_id (pos 0) tx_digest).1
            ≡ (execute env' (record u { commit_received = true; tx_digest = tx_digest }) s').1))
unfolding perform
executed_again env env' s p t op tx_digest no_commit pending early early' new fine full mine =
    let u = pending_with env t op in
    let is = add_plan-pending env t t.tx_id op no_commit pending early new fine in
    let there = get_tx-save_tx env s u in
    rw is (
      there,
      commit_runs env' (save_tx env s u).1 p u t.tx_id (pos 0) tx_digest there mine refl early' refl
          full,
    )
