-- ===== src/Threads/Local.antt =====
-- What a thread knows of the store, and that its own steps keep this.
use httpkvdb.Base.{
  ℕ, ◌≡◌, ◌⊎◌, refl, sym, ◌∙◌, ap, true, false, none, some, [], arith, inl, inr, Option-cases, not,
  ◌&&◌,
}
use httpkvdb.Base.Int.{ℤ, int_eq}
use httpkvdb.Base.Bytes.{Bytes, bytes_key, bytes_eq, is_empty}
use httpkvdb.Base.Dict.{insert}
use httpkvdb.Golang.Crypto.{Std}
use httpkvdb.Model.{Time, Transaction, TxOperation, Error, Result, ok, err}
use httpkvdb.Tx.Digest.{digest}
use httpkvdb.Tx.Coordinator.{stamped}
use httpkvdb.Storage.Snapshot.{Snapshot}
use httpkvdb.Storage.Disk.{Json, Io, Env}
use httpkvdb.Storage.Store.{Store, save_tx, get_tx}
use httpkvdb.Storage.Store
use httpkvdb.Storage.Atomic.{AtomicTx, begin_atomic, clone_snapshot}
use httpkvdb.Tx.Machine.{world}
use httpkvdb.Threads.Lock.{Serializable, lock, unlock}
use httpkvdb.Threads.Plan.{
  Plan, run, run_plan, guarded, accept_plan, close_plan, add_plan, commit_plan, abort_plan,
  look_plan,
}
use httpkvdb.Threads.System.{
  Method, add, commit, abort, get_result, plan_of, Pc, idle, planned, running, begun, working,
  import_ready, imported, leaving, critical, Shared, Move, load, scan, open_new, nothing, write,
  enter, begin, no_begin, end, take, work, take_import, import_begin, import_no_begin, import_end,
  leave,
}

-- The data but for the transactions.
abbrev pub bare : Snapshot → Snapshot
bare d = record d { txs = [] }

module _ {Doc : Type 0} (std : Std) (json : Json Doc) where
  -- A transaction that is executed has the digest it was given, if any.
  abbrev pub IsFit : Transaction → Type 0
  IsFit t = not (is_empty t.tx_digest) && not (bytes_eq t.tx_digest (digest std t)) ≡ false

  -- What the locals of a thread say of the store.
  abbrev pub Local : Store Doc → Pc → Type 0
  Local s (planned plan) = (t : Transaction) → plan ≡ run t → IsFit t
  Local s (running t) = IsFit t
  Local s (begun t atx) = IsFit t × (atx.closed ≡ false) × (bare atx.contents ≡ bare s.contents)
  Local s _ = Unit {0}

  module _ (io : Io Doc) (now : Time) where
    abbrev env : Env Doc
    env = world std json io now

    run_plan-IsFit : (t u : Transaction) → run_plan env t ≡ run u → IsFit u
    unfolding run_plan
    run_plan-IsFit t u h = ground arith

    guarded-run : (t u : Transaction) (next : Plan) → guarded env t next ≡ run u → next ≡ run u
    unfolding guarded
    guarded-run t u next h = ground arith

    accept_plan-IsFit :
        (t u : Transaction) (op : TxOperation) → accept_plan env t op ≡ run u → IsFit u
    unfolding accept_plan
    accept_plan-IsFit t u op h =
        ground (arith, run_plan-IsFit (record t { ops = insert t.ops op.seq op }) u)

    close_plan-IsFit :
        (t u : Transaction) (total_ops : ℤ) (digest : Bytes)
        → close_plan env t total_ops digest ≡ run u
        → IsFit u
    unfolding close_plan
    close_plan-IsFit t u total_ops digest h =
        ground (arith, run_plan-IsFit (record t { commit_received = true; tx_digest = digest }) u)

    plan_of-IsFit :
        (t : Transaction) (tx_id : Bytes) (m : Method) (u : Transaction)
        → plan_of env t tx_id m ≡ run u
        → IsFit u
    unfolding plan_of add_plan commit_plan abort_plan look_plan
    plan_of-IsFit t tx_id (add op) u h =
        let next = guarded-run t u _ h in
        ground (arith, accept_plan-IsFit t u (stamped env tx_id op))
    plan_of-IsFit t tx_id (commit total_ops digest) u h = ground (
      arith,
      guarded-run t u (close_plan env t total_ops digest),
      close_plan-IsFit t u total_ops digest,
    )
    plan_of-IsFit t tx_id abort u h = ground arith
    plan_of-IsFit t tx_id get_result u h = ground arith

    look_plan-IsFit : (t u : Transaction) → look_plan env t ≡ run u → IsFit u
    unfolding look_plan
    look_plan-IsFit t u h = ground arith

    begun-Local :
        (s : Store Doc) (t : Transaction) (atx : AtomicTx)
        → ((d' : Snapshot) → clone_snapshot json s.contents ≡ some d' → d' ≡ s.contents)
        → IsFit t
        → begin_atomic env s ≡ ok atx
        → Local s (begun t atx)
    unfolding begin_atomic
    begun-Local s t atx exact fit b = elim (Option-cases (clone_snapshot json s.contents)) [
      | inl c ↦ absurd (no_copy (rw (c, begin_atomic) at b))
      | inr (d, c) ↦
          let is = opened (rw (c, begin_atomic) at b) in
          (
            fit,
            sym (ap (λ x. x.closed) is),
            ap (λ x. bare x.contents) (sym is) ∙ ap bare (exact d c),
          )
    ]
      where
        no_copy : {e : Error} → Path (Result AtomicTx) (err e) (ok atx) → ⊥
        no_copy p = cc

        opened : {a : AtomicTx} → Path (Result AtomicTx) (ok a) (ok atx) → a ≡ atx
        opened p = cc

  -- Another transaction in the store changes nothing for the other threads.
  pub Local-txs :
      (s s' : Store Doc) (p : Pc) → bare s'.contents ≡ bare s.contents → Local s p → Local s' p
  Local-txs s s' (begun t atx) same (fit, open_tx, h) = (fit, open_tx, h ∙ sym same)
  Local-txs s s' (planned plan) same h = h
  Local-txs s s' (running t) same h = h
  Local-txs s s' idle same h = tt
  Local-txs s s' (working job) same h = tt
  Local-txs s s' (import_ready u records mode) same h = tt
  Local-txs s s' (imported atx) same h = tt
  Local-txs s s' leaving same h = tt

  -- Nor does anything for the threads without the lock.
  pub Local-free : (s s' : Store Doc) (p : Pc) → critical p ≡ false → Local s p → Local s' p
  Local-free s s' idle free h = tt
  Local-free s s' (planned plan) free h = h
  Local-free s s' (running t) free h = h
  Local-free s s' (begun t atx) free h = absurd (clash free)
    where
      clash : true ≡ false → ⊥
      clash p = cc
  Local-free s s' (working job) free h = tt
  Local-free s s' (import_ready u records mode) free h = tt
  Local-free s s' (imported atx) free h = tt
  Local-free s s' leaving free h = tt

  -- The thread that moves.
  pub Move-Local :
      {m m' : Shared Doc} {p p' : Pc} {i : ℕ}
      → ((d d' : Snapshot) → clone_snapshot json d ≡ some d' → d' ≡ d)
      → Move std json i m p m' p'
      → Local m.store p
      → Local m'.store p'
  Move-Local exact (load io now p tx_id t method l) h = plan_of-IsFit io now t tx_id method
  Move-Local exact (scan io now tx_id t l) h = look_plan-IsFit io now t
  Move-Local exact (open_new io now p total_ops timeout tx_id e l) h = λ u same. cc
  Move-Local exact nothing h = tt
  Move-Local exact (write io now) h = tt
  Move-Local exact (enter {t = t} l) h = h t refl
  Move-Local {m = m} exact (begin io now {t = t} {atx = atx} b) h =
      begun-Local io now m.store t atx (exact m.store.contents) h b
  Move-Local exact (no_begin io now b) h = tt
  Move-Local exact (end io now) h = tt
  Move-Local exact (take job l) h = tt
  Move-Local exact (work io now) h = tt
  Move-Local exact (take_import u records mode l) h = tt
  Move-Local exact (import_begin io now b) h = tt
  Move-Local exact (import_no_begin io now b) h = tt
  Move-Local exact (import_end io now) h = tt
  Move-Local exact leave h = tt

-- The lock is as it was, taken by thread `i` when it was free, or given back by its holder.
abbrev pub Passes : {Doc : Type 0} → ℕ → Shared Doc → Pc → Shared Doc → Pc → Type 0
Passes i m p m' p' =
    ((m'.mutex ≡ m.mutex) × (critical p' ≡ critical p))
    ⊎ ((m.mutex.holder ≡ none) × (m'.mutex.holder ≡ some i) × (critical p' ≡ true))
    ⊎ ((critical p ≡ true) × (critical p' ≡ false) × (m'.mutex.holder ≡ none))

taken : (i : ℕ) (s l : Serializable) → lock i s ≡ some l → (s.holder ≡ none) × (l.holder ≡ some i)
unfolding lock
taken i s l h = ground arith

-- What one thread does to the others' data, and to the lock.
module _ {Doc : Type 0} {std : Std} {json : Json Doc} {i : ℕ} where
  pub Move-bare :
      {m m' : Shared Doc} {p p' : Pc}
      → Move std json i m p m' p'
      → (bare m'.store.contents ≡ bare m.store.contents) ⊎ (critical p ≡ true)
  unfolding save_tx Store.save
  Move-bare (write io now) = inl refl
  Move-bare (end io now) = inr refl
  Move-bare (work io now) = inr refl
  Move-bare (import_end io now) = inr refl
  Move-bare (load io now p tx_id t method l) = inl refl
  Move-bare (scan io now tx_id t l) = inl refl
  Move-bare (open_new io now p total_ops timeout tx_id e l) = inl refl
  Move-bare nothing = inl refl
  Move-bare (enter l) = inl refl
  Move-bare (begin io now b) = inl refl
  Move-bare (no_begin io now b) = inl refl
  Move-bare (take job l) = inl refl
  Move-bare (take_import u records mode l) = inl refl
  Move-bare (import_begin io now b) = inl refl
  Move-bare (import_no_begin io now b) = inl refl
  Move-bare leave = inl refl

  pub Move-mutex : {m m' : Shared Doc} {p p' : Pc} → Move std json i m p m' p' → Passes i m p m' p'
  Move-mutex (enter l) = let t = taken i _ _ l in inr (inl (t.0, t.1, refl))
  Move-mutex (take job l) = let t = taken i _ _ l in inr (inl (t.0, t.1, refl))
  Move-mutex (take_import u records mode l) = let t = taken i _ _ l in inr (inl (t.0, t.1, refl))
  Move-mutex leave = inr (inr (refl, refl, (unfold unlock in refl)))
  Move-mutex (load io now p tx_id t method l) = inl (refl, refl)
  Move-mutex (scan io now tx_id t l) = inl (refl, refl)
  Move-mutex (open_new io now p total_ops timeout tx_id e l) = inl (refl, refl)
  Move-mutex nothing = inl (refl, refl)
  Move-mutex (write io now) = inl (refl, refl)
  Move-mutex (begin io now b) = inl (refl, refl)
  Move-mutex (no_begin io now b) = inl (refl, refl)
  Move-mutex (end io now) = inl (refl, refl)
  Move-mutex (work io now) = inl (refl, refl)
  Move-mutex (import_begin io now b) = inl (refl, refl)
  Move-mutex (import_no_begin io now b) = inl (refl, refl)
  Move-mutex (import_end io now) = inl (refl, refl)
