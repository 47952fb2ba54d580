-- ===== src/Tx/Atomicity.antt =====
-- Coordinator.execute as a whole, beside the specification.
use httpkvdb.Base.{
  ◌≡◌, ◌≢◌, refl, sym, ap, ◌∙◌, Bool, true, false, not, ◌&&◌, Option, none, some, List, [], map,
  ◌⊎◌, inl, inr,
}
use httpkvdb.Base.Bytes.{Bytes, codes, bytes_eq, bytes_key, is_empty}
use httpkvdb.Base.Dict.{insert}
use httpkvdb.Model.{Result, ok, err, TxStatus, TxOperationResult, TxResult, Transaction}
use httpkvdb.Storage.Snapshot.{get_from}
use httpkvdb.Storage.Disk.{Env}
use httpkvdb.Storage.Store.{Store, save, get_tx}
use httpkvdb.Storage.Store
use httpkvdb.Storage.Atomic.{AtomicTx, begin_atomic, clone_snapshot, commit}
use httpkvdb.Storage.Atomic
use httpkvdb.Tx.Digest.{digest}
use httpkvdb.Tx.Execute.{
  op_at, Ending, finished, stopped, run_ops, all_seqs, aborted_tx, committed_tx, conclude, execute,
  Executed,
}
use httpkvdb.Tx.Spec.{View, view_of, Answer, answer_of, spec_run}
use httpkvdb.Tx.Refines.{EndingIs, run_ops-EndingIs}
use httpkvdb.Tx.Frame.{IsFrame, EndingFrames, run_ops-EndingFrames}

-- `tx_digest` is given and is not the digest of the operations.
abbrev pub is_mismatch : {Doc : Type 0} → Env Doc → Transaction → Bool
is_mismatch env t = not (is_empty t.tx_digest) && not (bytes_eq t.tx_digest (digest env.std t))

-- What is saved then.
abbrev pub mismatched : Transaction → Transaction
mismatched t = record t { status = TxStatus.aborted; abort_reason = codes "tx digest mismatch" }

-- What the specification says of the transaction, from the data of the store.
abbrev pub promised : {Doc : Type 0} → Transaction → Store Doc → Option (List Answer × View)
promised t s = spec_run (map (op_at t) (all_seqs t)) (view_of s.contents t.userspace_id)

-- Nothing but the entry of the transaction has changed, and that says aborted.
pub record IsAborted {Doc : Type 0} (t : Transaction) (s : Store Doc) (x : Executed × Store Doc)
    : Type 0 where
  pub tx : Transaction
  pub aborted : tx.status ≡ TxStatus.aborted
  pub contents : x.1.contents ≡ record s.contents { txs = insert s.contents.txs t.tx_id tx }
  pub error : x.0.1 ≢ none

-- What the caller gets when the files of the new data are written, or fail with an error.
abbrev pub report : Result (Unit {0}) → Option TxResult → Executed
report r result = elim r [ err e ↦ (none, some e) | ok _ ↦ (result, none) ]

-- The view is the promised one, the transaction is stored with the promised answers, and nothing
-- else has changed. The caller gets that result if the files of this data can be written, and the
-- error of the files if not.
pub record IsCommitted {Doc : Type 0} (env : Env Doc) (t : Transaction) (s : Store Doc)
    (x : Executed × Store Doc) (answers : List Answer) (v : View) : Type 0 where
  pub results : List TxOperationResult
  pub answered : map answer_of results ≡ answers
  pub view : view_of x.1.contents t.userspace_id ≡ v
  pub others :
      (u' key : Bytes)
      → (bytes_eq t.userspace_id u' ≡ true)
        ⊎ (get_from x.1.contents u' key ≡ get_from s.contents u' key)
  pub keys : x.1.contents.api_keys ≡ s.contents.api_keys
  pub subjects : x.1.contents.jwt_subjects ≡ s.contents.jwt_subjects
  pub txs : x.1.contents.txs ≡ insert s.contents.txs t.tx_id (committed_tx t results)
  pub reported : x.0 ≡ report (save env s x.1.contents).0 (committed_tx t results).result

module _ {Doc : Type 0} (env : Env Doc) (t : Transaction) (s : Store Doc) where
  pub execute_begun :
      is_mismatch env t ≡ false
      → clone_snapshot env.json s.contents ≡ some s.contents
      → execute env t s
        ≡ conclude env t s
            (run_ops env t (all_seqs t) [] (record { contents = s.contents; closed = false }))
  unfolding execute begin_atomic
  execute_begun m c = rw (m, execute, c, begin_atomic)

  save_tx_contents :
      (t' : Transaction)
      → (Store.save_tx env s t').1.contents
        ≡ record s.contents { txs = insert s.contents.txs t'.tx_id t' }
  unfolding Store.save_tx save
  save_tx_contents t' = refl

  -- The saved transaction is aborted, and the rest is as before.
  saved-IsAborted :
      (x : Executed) (t' : Transaction)
      → t'.tx_id ≡ t.tx_id
      → t'.status ≡ TxStatus.aborted
      → x.1 ≢ none
      → IsAborted t s (x, (Store.save_tx env s t').1)
  saved-IsAborted x t' i a e = record {
    tx = t';
    aborted = a;
    contents =
        save_tx_contents t' ∙ ap (λ k. record s.contents { txs = insert s.contents.txs k t' }) i;
    error = e;
  }

  -- A transaction whose given digest is not the digest of its operations is not run: the
  -- execution reports an error and changes nothing of the data but the entry of the transaction,
  -- which is stored as aborted.
  pub mismatch_aborts : is_mismatch env t ≡ true → IsAborted t s (execute env t s)
  unfolding execute
  mismatch_aborts m = rw (m, execute) (saved-IsAborted _ _ refl refl (λ p. cc))

  none-IsAborted :
      (e : Ending) → EndingIs t.userspace_id [] e none → IsAborted t s (conclude env t s e)
  unfolding conclude
  none-IsAborted (finished results atx) h = absurd h
  none-IsAborted (stopped results reason e) h =
      saved-IsAborted _ _ (unfold aborted_tx in refl) (unfold aborted_tx in refl) (λ p. cc)

  -- What Commit does on an open working copy.
  commit_open :
      (atx : AtomicTx)
      → atx.closed ≡ false
      → ((commit env atx s).0 ≡ (save env s atx.contents).0)
        × ((commit env atx s).2.contents ≡ atx.contents)
  unfolding commit
  commit_open atx o = rw (o, commit) (refl, (unfold save in refl))

  saved-IsCommitted :
      (results : List TxOperationResult) (atx : AtomicTx) (answers : List Answer) (v : View)
      (x : Executed) (s' : Store Doc)
      → map answer_of results ≡ answers
      → view_of atx.contents t.userspace_id ≡ v
      → IsFrame t.userspace_id s.contents atx.contents
      → s'.contents ≡ (Atomic.save_tx atx (committed_tx t results)).contents
      → x ≡ report (save env s s'.contents).0 (committed_tx t results).result
      → IsCommitted env t s (x, s') answers v
  unfolding Atomic.save_tx view_of get_from committed_tx
  saved-IsCommitted results atx answers v x s' ha hv f c rep = record {
    results = results;
    answered = ha;
    view = ap (λ d. view_of d t.userspace_id) c ∙ hv;
    others = λ u' key. elim (f.others u' key) [
      | inl same ↦ inl same
      | inr p ↦ inr (ap (λ d. get_from d u' key) c ∙ p)
    ];
    keys = ap (λ d. d.api_keys) c ∙ f.keys;
    subjects = ap (λ d. d.jwt_subjects) c ∙ f.subjects;
    txs = ap (λ d. d.txs) c ∙ ap (λ txs. insert txs t.tx_id (committed_tx t results)) f.txs;
    reported = rep;
  }

  some-IsCommitted :
      (e : Ending) (answers : List Answer) (v : View)
      → EndingIs t.userspace_id [] e (some (answers, v))
      → EndingFrames t.userspace_id (record { contents = s.contents; closed = false }) e
      → IsCommitted env t s (conclude env t s e) answers v
  unfolding conclude
  some-IsCommitted (stopped results reason e) answers v h f = absurd h
  some-IsCommitted (finished results atx) answers v (ha, hv) (f, o) =
      let atx' = Atomic.save_tx atx (committed_tx t results) in
      let (written, contents) = commit_open atx' (unfold Atomic.save_tx in o) in
      let answer = written ∙ sym (ap (λ d. (save env s d).0) contents) in
      let result = (committed_tx t results).result in
      saved-IsCommitted results atx answers v (report (commit env atx' s).0 result)
        (commit env atx' s).2 ha hv f contents (ap (λ r. report r result) answer)

  -- Where the digest matches, the JSON copy reads back as the data, and the specification gives
  -- no answers: the execution of the transaction reports an error and changes nothing of the
  -- data but the entry of the transaction, which is stored as aborted.
  pub execute_aborts :
      is_mismatch env t ≡ false
      → clone_snapshot env.json s.contents ≡ some s.contents
      → promised t s ≡ none
      → IsAborted t s (execute env t s)
  execute_aborts m c p = rw (execute_begun m c) (
      none-IsAborted _ (
        rw p at (
          run_ops-EndingIs env t (all_seqs t) []
            (record { contents = s.contents; closed = false }))))

  pub execute_commits :
      (answers : List Answer) (v : View)
      → is_mismatch env t ≡ false
      → clone_snapshot env.json s.contents ≡ some s.contents
      → promised t s ≡ some (answers, v)
      → IsCommitted env t s (execute env t s) answers v
  execute_commits answers v m c p = rw (execute_begun m c) (
      some-IsCommitted _ answers v
        (rw p at (
          run_ops-EndingIs env t (all_seqs t) []
            (record { contents = s.contents; closed = false })))
        (run_ops-EndingFrames env t (all_seqs t) [] _))
