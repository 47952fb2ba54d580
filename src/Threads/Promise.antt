-- ===== src/Threads/Promise.antt =====
-- What a transaction promises, also while other threads are at work.
use httpkvdb.Base.{
  ◌≡◌, sym, ◌∙◌, ap, Option, none, some, List, map, arith, inl, inr, Option-cases, Bool-cases, refl,
  if◌then◌else◌,
}
use mathlib.Core.Path.{subst}
use httpkvdb.Base.Bytes.{Bytes, bytes_eq_iff, bytes_key}
use httpkvdb.Base.Dict.{insert, lookup-insert}
use httpkvdb.Model.{Transaction, TxStatus, TxOperationResult, ok}
use httpkvdb.Storage.Snapshot.{Snapshot, get_from, space_of}
use httpkvdb.Storage.Disk.{Env}
use httpkvdb.Storage.Store.{Store, get_tx}
use httpkvdb.Storage.Atomic.{clone_snapshot}
use httpkvdb.Tx.Atomicity.{
  IsAborted, IsCommitted, is_mismatch, promised, mismatch_aborts, execute_aborts, execute_commits,
}
use httpkvdb.Tx.Spec.{Answer, View, answer_of, view_of}
use httpkvdb.Tx.Execute.{execute, committed_tx, Executed}
use httpkvdb.Threads.System.{System}
use httpkvdb.Threads.Local.{bare, Local}
use httpkvdb.Threads.Serial.{SameOutcome}

-- The transaction is aborted and the data is as it was, if nothing is promised. Else the
-- userspace has the promised view, and the transaction is committed with the promised answers.
abbrev pub Kept :
    {Doc : Type 0} → Transaction → Store Doc → Store Doc → Option (List Answer × View) → Type 0
Kept t s s' none =
    (bare s'.contents ≡ bare s.contents)
    × ((u : Transaction) × (get_tx s' t.tx_id ≡ ok u) × (u.status ≡ TxStatus.aborted))
Kept t s s' (some (answers, v)) =
    (view_of s'.contents t.userspace_id ≡ v)
    × ((results : List TxOperationResult) × (get_tx s' t.tx_id ≡ ok (committed_tx t results))
        × (map answer_of results ≡ answers))

module _ {Doc : Type 0} (t : Transaction) (s : Store Doc) where
  get_tx-insert :
      (s' : Store Doc) (u : Transaction)
      → s'.contents.txs ≡ insert s.contents.txs t.tx_id u
      → get_tx s' t.tx_id ≡ ok u
  unfolding get_tx
  get_tx-insert s' u h =
      rw h (
        ground
          (arith, lookup-insert s.contents.txs t.tx_id u t.tx_id, bytes_eq_iff t.tx_id t.tx_id))

  view-bare : (d d' : Snapshot) (u : Bytes) → bare d ≡ bare d' → view_of d u ≡ view_of d' u
  unfolding view_of get_from space_of
  view-bare d d' u same = ap (λ e. view_of e u) same

  aborted-Kept :
      (x y : Executed × Store Doc) → SameOutcome t.tx_id x y → IsAborted t s y → Kept t s x.1 none
  aborted-Kept x y (same, own) h = (
    same ∙ ap bare h.contents,
    (h.tx, own ∙ get_tx-insert y.1 h.tx (ap (λ d. d.txs) h.contents), h.aborted),
  )

  committed-Kept :
      (env : Env Doc) (x y : Executed × Store Doc) (answers : List Answer) (v : View)
      → SameOutcome t.tx_id x y
      → IsCommitted env t s y answers v
      → Kept t s x.1 (some (answers, v))
  committed-Kept env x y answers v (same, own) h = (
    view-bare x.1.contents y.1.contents t.userspace_id same ∙ h.view,
    (h.results, own ∙ get_tx-insert y.1 (committed_tx t h.results) h.txs, h.answered),
  )

-- What the client may expect: nothing if the digest it gave is not that of the operations.
abbrev pub due : {Doc : Type 0} → Env Doc → Transaction → Store Doc → Option (List Answer × View)
due env t s = if is_mismatch env t then none else promised t s

-- An execution that nothing comes between
pub execute-Kept :
    {Doc : Type 0} (env : Env Doc) (t : Transaction) (s : Store Doc)
    → ((d : Snapshot) → clone_snapshot env.json d ≡ some d)
    → Kept t s (execute env t s).1 (due env t s)
execute-Kept {Doc = Doc} env t s exact = elim (Bool-cases (is_mismatch env t)) [
  | inl m ↦
      subst (λ b. Kept t s x.1 (if b then none else promised t s)) (sym m)
        (aborted-Kept t s x x (refl, refl) (mismatch_aborts env t s m))
  | inr m ↦
      subst (λ b. Kept t s x.1 (if b then none else promised t s)) (sym m)
        (elim (Option-cases (promised t s)) [
          | inl n ↦
              subst (Kept t s x.1) (sym n)
                (aborted-Kept t s x x (refl, refl) (execute_aborts env t s m (exact s.contents) n))
          | inr ((answers, v), p) ↦ subst (Kept t s x.1) (sym p) (
              committed-Kept t s env x x answers v (refl, refl)
                (execute_commits env t s answers v m (exact s.contents) p))
        ])
]
  where
    x : Executed × Store Doc
    x = execute env t s
