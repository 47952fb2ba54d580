-- ===== src/Threads/Plan.antt =====
-- The methods of the coordinator, cut where another request can come between: each loads a
-- transaction, decides by it and the clock alone, and then saves a transaction, or executes one.
use httpkvdb.Base.{
  ◌≡◌, refl, true, not, ◌&&◌, ◌||◌, none, some, length, if◌then◌else◌, ltb, arith, inl, inr,
  Bool-cases,
}
use httpkvdb.Base.Int.{ℤ, pos, ltb_ℤ, eq_ℤ, int_eq}
use httpkvdb.Base.Bytes.{Bytes, codes, is_empty}
use httpkvdb.Base.Dict.{lookup, insert}
use httpkvdb.Model.{Principal, Transaction, TxOperation, TxStatus, ok}
use httpkvdb.Storage.Disk.{Env}
use httpkvdb.Storage.Store.{Store, save_tx}
use httpkvdb.Tx.Digest.{same_op}
use httpkvdb.Tx.Execute.{execute}
use httpkvdb.Tx.Atomicity.{is_mismatch, mismatched}
use httpkvdb.Tx.Coordinator.{
  is_open, is_committed, ended, stamped, load_owned, expire_if_needed, mutable, accept_op, add_op,
  abort, get_result,
}
use httpkvdb.Tx.Coordinator

-- What a method does to the store after it has loaded a transaction.
pub data Plan : Type 0 where
  stop : Plan
  save : Transaction → Plan
  run : Transaction → Plan

module _ {Doc : Type 0} (env : Env Doc) where
  -- mutable
  unfoldable pub guarded : Transaction → Plan → Plan
  guarded t next =
      if is_open t.status && ltb t.deadline env.now
      then save (record t { status = TxStatus.expired })
      else elim (ended t.status) [ some e ↦ stop | none ↦ next ]

  -- execute, up to the global lock
  unfoldable pub run_plan : Transaction → Plan
  run_plan t = if is_mismatch env t then save (mismatched t) else run t

  -- AddOp behind its guards
  unfoldable pub accept_plan : Transaction → TxOperation → Plan
  accept_plan t op =
      let conflict : Transaction = record t {
        status = TxStatus.aborted;
        abort_reason = codes "SEQ_CONFLICT";
      } in
      let t' : Transaction = record t { ops = insert t.ops op.seq op } in
      let waiting : Transaction = record t' { status = TxStatus.waiting_for_ops } in
      let pending : Transaction = record t' { status = TxStatus.pending } in
      elim (lookup t.ops op.seq) [
        | some old ↦ if same_op old op then stop else save conflict
        | none ↦
            if t'.commit_received && eq_ℤ (pos (length t'.ops)) t'.total_ops
            then run_plan t'
            else save (if t'.commit_received then waiting else pending)
      ]

  -- AddOp
  unfoldable pub add_plan : Transaction → Bytes → TxOperation → Plan
  add_plan t tx_id op = guarded t (
      if ltb_ℤ op.seq (pos 1) || ltb_ℤ t.total_ops op.seq || is_empty op.op_id
      then stop
      else accept_plan t (stamped env tx_id op))

  -- Commit behind its guards
  unfoldable pub close_plan : Transaction → ℤ → Bytes → Plan
  close_plan t total_ops digest =
      let t' : Transaction = record t { commit_received = true; tx_digest = digest } in
      if not (eq_ℤ total_ops (pos 0)) && not (eq_ℤ total_ops t.total_ops)
      then stop
      else if ltb_ℤ (pos (length t.ops)) t.total_ops
      then save (record t' { status = TxStatus.waiting_for_ops })
      else run_plan t'

  -- Commit
  unfoldable pub commit_plan : Transaction → ℤ → Bytes → Plan
  commit_plan t total_ops digest =
      if is_committed t.status then stop else guarded t (close_plan t total_ops digest)

  -- Abort
  unfoldable pub abort_plan : Transaction → Plan
  abort_plan t =
      if is_committed t.status
      then stop
      else save (record t { status = TxStatus.aborted; abort_reason = codes "client aborted" })

  -- GetResult, and a round of ExpireDue
  unfoldable pub look_plan : Transaction → Plan
  look_plan t =
      if is_open t.status && ltb t.deadline env.now
      then save (record t { status = TxStatus.expired })
      else stop

  -- The rest of a method that nothing comes between.
  unfoldable pub perform : Plan → Store Doc → Store Doc
  perform stop s = s
  perform (save t) s = (save_tx env s t).1
  perform (run t) s = (execute env t s).1

  pub save_mismatch :
      (s : Store Doc) (t : Transaction)
      → is_mismatch env t ≡ true
      → (save_tx env s (mismatched t)).1 ≡ (execute env t s).1
  unfolding execute
  save_mismatch s t m = rw (m, execute) refl

  perform-run_plan :
      (s : Store Doc) (t : Transaction) → perform (run_plan t) s ≡ (execute env t s).1
  unfolding perform run_plan
  perform-run_plan s t = elim (Bool-cases (is_mismatch env t)) [
    | inl m ↦ rw (m, run_plan) (save_mismatch s t m)
    | inr m ↦ rw (m, run_plan) refl
  ]

  module _ (s : Store Doc) (t : Transaction) where
    perform-accept_plan :
        (op : TxOperation) → perform (accept_plan t op) s ≡ (accept_op env t s op).1
    unfolding perform accept_plan accept_op
    perform-accept_plan op =
        let t' : Transaction = record t { ops = insert t.ops op.seq op } in
        ground (arith, perform-run_plan s t')

    perform-look_plan : perform (look_plan t) s ≡ (expire_if_needed env t s).2
    unfolding perform look_plan expire_if_needed
    perform-look_plan = ground arith

    -- A method that nothing comes between does what its plan says.
    module _ (p : Principal) (tx_id : Bytes) (mine : load_owned s p tx_id ≡ ok t) where
      pub add_op-plan :
          (op : TxOperation) → (add_op env s p tx_id op).1 ≡ perform (add_plan t tx_id op) s
      unfolding add_op mutable expire_if_needed perform add_plan guarded
      add_op-plan op = ground (arith, perform-accept_plan (stamped env tx_id op))

      commit-plan :
          (total_ops : ℤ) (digest : Bytes)
          → (Coordinator.commit env s p tx_id total_ops digest).1
            ≡ perform (commit_plan t total_ops digest) s
      unfolding Coordinator.commit mutable expire_if_needed perform commit_plan guarded close_plan
      commit-plan total_ops digest =
          let t' : Transaction = record t { commit_received = true; tx_digest = digest } in
          ground (arith, perform-run_plan s t')

      abort-plan : (abort env s p tx_id).1 ≡ perform (abort_plan t) s
      unfolding abort perform abort_plan
      abort-plan = ground arith

      get_result-plan : (get_result env s p tx_id).1 ≡ perform (look_plan t) s
      unfolding get_result expire_if_needed perform look_plan
      get_result-plan = ground arith
