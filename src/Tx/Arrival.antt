-- ===== src/Tx/Arrival.antt =====
-- The order in which the operations of a transaction arrive.
use httpkvdb.Base.{
  ◌≡◌, refl, sym, ◌∙◌, ap, Bool, true, false, not, ◌&&◌, Option, none, some, List, [], ◌∷◌, ◌++◌,
  arith, inl, inr, Bool-cases,
}
use mathlib.Core.Path.{subst}
use httpkvdb.Base.Int.{ℤ, int_eq}
use httpkvdb.Base.Bytes.{Bytes, bytes_eq, bytes_eq_iff, bytes_key, is_empty}
use httpkvdb.Base.Dict.{lookup, insert, lookup-insert}
use httpkvdb.Model.{
  Transaction, TxOperationResult, TxResult, TxStatus, Result, ok, err, tx_not_found,
}
use httpkvdb.Storage.Snapshot.{Snapshot}
use httpkvdb.Storage.Disk.{Env}
use httpkvdb.Storage.Store.{Store, get_tx, save, save_tx}
use httpkvdb.Storage.Atomic.{AtomicTx, clone_snapshot, commit}
use httpkvdb.Storage.Atomic
use httpkvdb.Tx.Atomicity.{is_mismatch, mismatched, execute_begun}
use httpkvdb.Tx.Digest.{digest}
use httpkvdb.Tx.Same.{Ops, SameMap, with_ops, digest-same}
use httpkvdb.Tx.Execute.{
  Round, goes_on, aborts, op_at, run_op, run_ops, stopped_with, Ending, finished, stopped, all_seqs,
  conclude, execute, aborted_tx, committed_tx,
}

module _ {Doc : Type 0} (env : Env Doc) (t : Transaction) (m m' : Ops) (same : SameMap m m') where
  abbrev continue : Transaction → List ℤ → List TxOperationResult → Round → Ending
  continue u seqs results (aborts item reason e) = stopped_with results item reason e
  continue u seqs results (goes_on item atx) = run_ops env u seqs (results ++ item ∷ []) atx

  continue-same :
      (seqs : List ℤ) (results : List TxOperationResult)
      → ((item : TxOperationResult) (atx : AtomicTx)
          → run_ops env (with_ops m t) seqs (results ++ item ∷ []) atx
            ≡ run_ops env (with_ops m' t) seqs (results ++ item ∷ []) atx)
      → (r : Round)
      → continue (with_ops m t) seqs results r ≡ continue (with_ops m' t) seqs results r
  continue-same seqs results ih (aborts item reason e) = refl
  continue-same seqs results ih (goes_on item atx) = ih item atx

  op_at-same : (seq : ℤ) → op_at (with_ops m t) seq ≡ op_at (with_ops m' t) seq
  unfolding op_at lookup
  op_at-same seq = rw (same.same seq) refl

  run_op-same :
      (seq : ℤ) (atx : AtomicTx)
      → run_op env (with_ops m t) seq atx ≡ run_op env (with_ops m' t) seq atx
  unfolding run_op
  run_op-same seq atx = rw (op_at-same seq) refl

  run_ops-same :
      (seqs : List ℤ) (results : List TxOperationResult) (atx : AtomicTx)
      → run_ops env (with_ops m t) seqs results atx ≡ run_ops env (with_ops m' t) seqs results atx
  unfolding run_ops
  run_ops-same [] results atx = refl
  run_ops-same (seq ∷ seqs) results atx =
      ap (continue (with_ops m t) seqs results) (run_op-same seq atx)
      ∙ continue-same seqs results (λ item atx'. run_ops-same seqs (results ++ item ∷ []) atx') _

-- What a transaction says to its client of how it ended.
abbrev outcome : Result Transaction → Option (TxStatus × Option TxResult × Bytes)
outcome (ok t) = some (t.status, t.result, t.abort_reason)
outcome (err e) = none

-- Two executions end alike: the same data but for the transactions, and the same end of their own
-- transaction.
abbrev pub EndsAlike : {Doc : Type 0} → Bytes → Store Doc → Store Doc → Type 0
EndsAlike tx_id x y =
    (x.contents.userspaces ≡ y.contents.userspaces)
    × (x.contents.version ≡ y.contents.version)
    × (x.contents.api_keys ≡ y.contents.api_keys)
    × (x.contents.jwt_subjects ≡ y.contents.jwt_subjects)
    × (outcome (get_tx x tx_id) ≡ outcome (get_tx y tx_id))

abbrev keeping : Snapshot → Bytes → Transaction → Snapshot
keeping d tx_id t = record d { txs = insert d.txs tx_id t }

module _ (tx_id : Bytes) where
  abbrev found : Snapshot → Result Transaction
  found d = elim (lookup d.txs tx_id) [ none ↦ err tx_not_found | some tx ↦ ok tx ]

  found-keeping : (d : Snapshot) (t : Transaction) → found (keeping d tx_id t) ≡ ok t
  found-keeping d t = ground (arith, lookup-insert d.txs tx_id t tx_id, bytes_eq_iff tx_id tx_id)

  -- Two stores that keep two like ends of a transaction in the same data.
  kept-EndsAlike :
      {Doc : Type 0} (d : Snapshot) (u v : Transaction) (x y : Store Doc)
      → outcome (ok u) ≡ outcome (ok v)
      → x.contents ≡ keeping d tx_id u
      → y.contents ≡ keeping d tx_id v
      → EndsAlike tx_id x y
  unfolding get_tx lookup
  kept-EndsAlike d u v x y h p q = (
    ap (λ e. e.userspaces) p ∙ sym (ap (λ e. e.userspaces) q),
    ap (λ e. e.version) p ∙ sym (ap (λ e. e.version) q),
    ap (λ e. e.api_keys) p ∙ sym (ap (λ e. e.api_keys) q),
    ap (λ e. e.jwt_subjects) p ∙ sym (ap (λ e. e.jwt_subjects) q),
    ap outcome (ap found p ∙ found-keeping d u)
        ∙ h
        ∙ sym (ap outcome (ap found q ∙ found-keeping d v)),
  )

module _ {Doc : Type 0} (env : Env Doc) (t : Transaction) (m m' : Ops) where
  conclude-EndsAlike :
      (s : Store Doc) (e : Ending)
      → EndsAlike t.tx_id (conclude env (with_ops m t) s e).1 (conclude env (with_ops m' t) s e).1
  unfolding conclude commit save_tx Atomic.save_tx save aborted_tx committed_tx
  conclude-EndsAlike s (stopped results reason e) =
      kept-EndsAlike t.tx_id s.contents (aborted_tx (with_ops m t) results reason)
        (aborted_tx (with_ops m' t) results reason) _ _ refl refl refl
  conclude-EndsAlike s (finished results atx) =
      let u = committed_tx (with_ops m t) results in
      let v = committed_tx (with_ops m' t) results in
      elim (Bool-cases atx.closed) [
        | inl c ↦ rw (c, conclude, commit, Atomic.save_tx) (refl, refl, refl, refl, refl)
        | inr o ↦
            rw (o, conclude, commit, Atomic.save_tx)
              (kept-EndsAlike t.tx_id atx.contents u v _ _ refl refl refl)
      ]

  mismatch-contents :
      (s : Store Doc) (u : Transaction)
      → is_mismatch env u ≡ true
      → (execute env u s).1.contents ≡ keeping s.contents u.tx_id (mismatched u)
  unfolding execute save_tx save
  mismatch-contents s u y = rw (y, execute) refl

  abbrev begun : Snapshot → AtomicTx
  begun d = record { contents = d; closed = false }

  abbrev differs : Bytes → Bool
  differs sum = not (is_empty t.tx_digest) && not (bytes_eq t.tx_digest sum)

  -- The operations of a transaction are in a Go map: two transactions that differ in the order
  -- in which their operations were put there have the same digest, and an execution of the one
  -- and of the other leaves the same data, with the same status, results and reason in the
  -- transaction. A JSON copy of the data is the data.
  pub any_order :
      (s : Store Doc)
      → SameMap m m'
      → ((d : Snapshot) → clone_snapshot env.json d ≡ some d)
      → (digest env.std (with_ops m t) ≡ digest env.std (with_ops m' t))
        × EndsAlike t.tx_id (execute env (with_ops m t) s).1 (execute env (with_ops m' t) s).1
  any_order s same exact =
      let sums = digest-same env.std t m m' same in
      (
        sums,
        elim (Bool-cases (is_mismatch env (with_ops m t))) [
          | inl y ↦
              kept-EndsAlike t.tx_id s.contents (mismatched (with_ops m t))
                (mismatched (with_ops m' t)) _ _ refl (mismatch-contents s (with_ops m t) y)
                (mismatch-contents s (with_ops m' t) (sym (ap differs sums) ∙ y))
          | inr n ↦
              let run = execute_begun env (with_ops m t) s n (exact s.contents) in
              let runs = run_ops-same env t m m' same (all_seqs t) [] (begun s.contents) in
              let run' =
                execute_begun env (with_ops m' t) s (sym (ap differs sums) ∙ n) (exact s.contents)
                ∙ ap (conclude env (with_ops m' t) s) (sym runs) in
              subst (λ x. EndsAlike t.tx_id x (execute env (with_ops m' t) s).1)
                (sym (ap (λ x. x.1) run))
                (subst
                  (λ y.
                    EndsAlike t.tx_id
                      (conclude env (with_ops m t) s
                        (run_ops env (with_ops m t) (all_seqs t) [] (begun s.contents))).1
                      y)
                  (sym (ap (λ x. x.1) run')) (conclude-EndsAlike s _))
        ],
      )
