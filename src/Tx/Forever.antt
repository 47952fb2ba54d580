-- ===== src/Tx/Forever.antt =====
-- What no sequence of requests to the coordinator undoes.
use httpkvdb.Base.{
  ◌≡◌, ◌≢◌, refl, sym, ◌∙◌, ap, true, false, some, [], arith, inl, inr, Bool-cases, Option-cases,
}
use mathlib.Core.Path.{subst}
use httpkvdb.Base.Int.{ℤ}
use httpkvdb.Base.Bytes.{Bytes, bytes_eq, bytes_eq_iff, bytes_key}
use httpkvdb.Base.Dict.{lookup, insert, lookup-insert}
use httpkvdb.Golang.Crypto.{Std}
use httpkvdb.Model.{Error, Time, Principal, Transaction, TxOperation, TxStatus, Result, ok, err}
use httpkvdb.Storage.Snapshot.{Snapshot}
use httpkvdb.Storage.Disk.{Json, Io, Env}
use httpkvdb.Storage.Store.{Store, get_tx, save, save_tx}
use httpkvdb.Storage.Atomic.{clone_snapshot, begin_atomic, commit}
use httpkvdb.Storage.Atomic
use httpkvdb.Tx.Execute.{
  Ending, finished, stopped, all_seqs, conclude, execute, aborted_tx, committed_tx,
}
use httpkvdb.Tx.Frame.{EndingFrames, run_ops-EndingFrames}
use httpkvdb.Tx.Coordinator.{
  Coordinator, load_owned, owns, is_committed, expire_if_needed, create_tx, add_op, abort,
  get_result,
}
use httpkvdb.Tx.Coordinator
use httpkvdb.Tx.Requests.{committed_final, not_owned}
use httpkvdb.Tx.Atomicity.{is_mismatch}
use httpkvdb.Tx.After.{
  after_create_tx, after_add_op, after_commit, after_abort, after_get_result,
  after_expire_if_needed,
}
use httpkvdb.Tx.Machine.{
  IsNamed, world, Step, creates, adds, commits, aborts, asks, expires, Steps, here, next,
}

-- The transaction `t` is stored under `id`, and all names are right.
abbrev pub IsHeld : {Doc : Type 0} → Bytes → Transaction → Store Doc → Type 0
IsHeld id t s = IsNamed s × (get_tx s id ≡ ok t)

module _ {Doc : Type 0} (env : Env Doc) (id : Bytes) (t : Transaction) (s : Store Doc)
    (held : IsHeld id t s) where
  -- What is saved under another name.
  IsHeld-insert :
      (s' : Store Doc) (other : Transaction)
      → s'.contents.txs ≡ insert s.contents.txs other.tx_id other
      → other.tx_id ≢ id
      → IsHeld id t s'
  unfolding get_tx
  IsHeld-insert s' other is apart = (
    (λ k u h.
        let h' : lookup (insert s.contents.txs other.tx_id other) k ≡ some u =
          ap (λ txs. lookup txs k) (sym is) ∙ h in
        ground (
          arith,
          lookup-insert s.contents.txs other.tx_id other k,
          bytes_eq_iff other.tx_id k,
          held.0 k u,
        )),
    rw is (
        ground (
          arith,
          lookup-insert s.contents.txs other.tx_id other id,
          bytes_eq_iff other.tx_id id,
          apart,
          held.1,
        )),
  )

  IsHeld-save_tx : (other : Transaction) → other.tx_id ≢ id → IsHeld id t (save_tx env s other).1
  unfolding save_tx save
  IsHeld-save_tx other apart = IsHeld-insert _ other refl apart

  IsHeld-conclude :
      (other : Transaction) (e : Ending)
      → other.tx_id ≢ id
      → EndingFrames other.userspace_id (record { contents = s.contents; closed = false }) e
      → IsHeld id t (conclude env other s e).1
  unfolding conclude commit Atomic.save_tx save
  IsHeld-conclude other (stopped results reason e) apart f =
      IsHeld-save_tx _ (unfold aborted_tx in apart)
  IsHeld-conclude other (finished results atx) apart (f, o) =
      rw (o, conclude, commit, Atomic.save_tx)
        (IsHeld-insert _ (committed_tx other results)
          (ap (λ txs. insert txs (committed_tx other results).tx_id (committed_tx other results))
            f.txs)
          (unfold committed_tx in apart))

  IsHeld-execute :
      (other : Transaction)
      → ((d : Snapshot) → clone_snapshot env.json s.contents ≡ some d → d ≡ s.contents)
      → other.tx_id ≢ id
      → IsHeld id t (execute env other s).1
  unfolding execute begin_atomic
  IsHeld-execute other faithful apart = elim (Bool-cases (is_mismatch env other)) [
    | inl m ↦ rw (m, execute) (IsHeld-save_tx _ apart)
    | inr m ↦ elim (Option-cases (clone_snapshot env.json s.contents)) [
      | inl c ↦ rw (m, execute, c, begin_atomic) held
      | inr (d, c) ↦
          rw (m, execute, c, begin_atomic)
            (rw (faithful d c) (
              IsHeld-conclude other _ apart (run_ops-EndingFrames env other (all_seqs other) [] _)))
    ]
  ]

  -- A request for another identifier loads another transaction.
  owned_other :
      (p : Principal) (tx_id : Bytes)
      → tx_id ≢ id
      → (u : Transaction) → load_owned s p tx_id ≡ ok u
      → u.tx_id ≢ id
  unfolding load_owned get_tx
  owned_other p tx_id apart u l same = apart (sym (held.0 tx_id u (ground arith)) ∙ same)

  -- A request for `id` changes nothing.
  module _ (done : t.status ≡ TxStatus.committed) (p : Principal) where
    add_same : (op : TxOperation) → (add_op env s p id op).1 ≡ s
    add_same op = elim (Bool-cases (owns p t)) [
      | inl o ↦ ap (λ x. x.1) ((committed_final env s p id t held.1 o done).0 op)
      | inr o ↦ ap (λ x. x.1) ((not_owned env s p id t held.1 o).0 op)
    ]

    commit_same : (n : ℤ) (d : Bytes) → (Coordinator.commit env s p id n d).1 ≡ s
    commit_same n d = elim (Bool-cases (owns p t)) [
      | inl o ↦ ap (λ x. x.1) ((committed_final env s p id t held.1 o done).1 n d)
      | inr o ↦ ap (λ x. x.1) ((not_owned env s p id t held.1 o).1 n d)
    ]

    abort_same : (abort env s p id).1 ≡ s
    abort_same = elim (Bool-cases (owns p t)) [
      | inl o ↦ ap (λ x. x.1) ((committed_final env s p id t held.1 o done).2)
      | inr o ↦ ap (λ x. x.1) ((not_owned env s p id t held.1 o).2)
    ]

    result_same : (get_result env s p id).1 ≡ s
    result_same = elim (Bool-cases (owns p t)) [
      | inl o ↦ ap (λ x. x.1) ((committed_final env s p id t held.1 o done).3)
      | inr o ↦ ap (λ x. x.1) ((not_owned env s p id t held.1 o).3)
    ]

module _ {Doc : Type 0} (std : Std) (json : Json Doc)
    (faithful : (d d' : Snapshot) → clone_snapshot json d ≡ some d' → d' ≡ d) (id : Bytes)
    (t : Transaction) (done : t.status ≡ TxStatus.committed) where
  abbrev Other : Bytes → Bytes → Type 0
  Other name v = name ≢ id

  module _ (io : Io Doc) (now : Time) (s : Store Doc) (held : IsHeld id t s) where
    abbrev env : Env Doc
    env = world std json io now

    saved : (u : Transaction) → Other u.tx_id u.userspace_id → IsHeld id t (save_tx env s u).1
    saved u apart = IsHeld-save_tx env id t s held u apart

    executed : (u : Transaction) → Other u.tx_id u.userspace_id → IsHeld id t (execute env u s).1
    executed u apart = IsHeld-execute env id t s held u (λ d. faithful s.contents d) apart

    -- The same store, or a request for another identifier.
    held_or :
        (tx_id : Bytes) (After : Bytes → Store Doc)
        → After id ≡ s
        → (tx_id ≢ id → IsHeld id t (After tx_id))
        → IsHeld id t (After tx_id)
    held_or tx_id After same other = elim (Bool-cases (bytes_eq tx_id id)) [
      | inl y ↦
          subst (λ x. IsHeld id t (After x)) (sym ((bytes_eq_iff tx_id id).0 y))
            (subst (λ x. IsHeld id t x) (sym same) held)
      | inr n ↦ other (λ p. clash (sym n ∙ (bytes_eq_iff tx_id id).1 p))
    ]
      where
        clash : false ≡ true → ⊥
        clash p = cc

    step_create :
        (c : Coordinator) (fresh : Bytes) (p : Principal) (total_ops timeout : ℤ)
        (requested : Bytes)
        → IsHeld id t (create_tx env c fresh s p total_ops timeout requested).1
    step_create c fresh p total_ops timeout requested =
        after_create_tx env s Other (λ s'. IsHeld id t s') held saved c fresh p total_ops timeout
          requested (λ e free same. clash (sym held.1 ∙ ap (λ x. get_tx s x) (sym same) ∙ free))
      where
        clash : {e : Error} → Path (Result Transaction) (ok t) (err e) → ⊥
        clash p = cc

    expire_same : (expire_if_needed env t s).2 ≡ s
    unfolding expire_if_needed
    expire_same = rw done refl

    name_of : (tx_id : Bytes) (u : Transaction) → get_tx s tx_id ≡ ok u → u.tx_id ≡ tx_id
    unfolding get_tx
    name_of tx_id u there = held.0 tx_id u (ground arith)

    step_expire :
        (tx_id : Bytes) (u : Transaction)
        → get_tx s tx_id ≡ ok u
        → IsHeld id t (expire_if_needed env u s).2
    step_expire tx_id u there = elim (Bool-cases (bytes_eq tx_id id)) [
      | inl y ↦
          let same_name = (bytes_eq_iff tx_id id).0 y in
          let same : t ≡ u = ok-inj (sym held.1 ∙ ap (λ x. get_tx s x) (sym same_name) ∙ there) in
          subst (λ x. IsHeld id t (expire_if_needed env x s).2) same
            (subst (λ x. IsHeld id t x) (sym expire_same) held)
      | inr n ↦
          after_expire_if_needed env s Other (λ s'. IsHeld id t s') held saved u
            (λ p. clash (sym n ∙ (bytes_eq_iff tx_id id).1 (sym (name_of tx_id u there) ∙ p)))
    ]
      where
        ok-inj : {a b : Transaction} → Path (Result Transaction) (ok a) (ok b) → a ≡ b
        ok-inj p = cc

        clash : false ≡ true → ⊥
        clash p = cc

  Step-IsHeld : {s s' : Store Doc} → Step std json s s' → IsHeld id t s → IsHeld id t s'
  Step-IsHeld {s = s} (creates io now c fresh p total_ops timeout requested) held =
      step_create io now s held c fresh p total_ops timeout requested
  Step-IsHeld {s = s} (adds io now p tx_id op) held =
      let w = world std json io now in
      held_or io now s held tx_id (λ x. (add_op w s p x op).1) (add_same w id t s held done p op)
        (λ apart.
          after_add_op w s Other (λ s'. IsHeld id t s') held (saved io now s held)
            (executed io now s held) p tx_id op (owned_other w id t s held p tx_id apart))
  Step-IsHeld {s = s} (commits io now p tx_id n d) held =
      let w = world std json io now in
      held_or io now s held tx_id (λ x. (Coordinator.commit w s p x n d).1)
        (commit_same w id t s held done p n d)
        (λ apart.
          after_commit w s Other (λ s'. IsHeld id t s') held (saved io now s held)
            (executed io now s held) p tx_id n d (owned_other w id t s held p tx_id apart))
  Step-IsHeld {s = s} (aborts io now p tx_id) held =
      let w = world std json io now in
      held_or io now s held tx_id (λ x. (abort w s p x).1) (abort_same w id t s held done p)
        (λ apart.
          after_abort w s Other (λ s'. IsHeld id t s') held (saved io now s held) p tx_id
            (owned_other w id t s held p tx_id apart))
  Step-IsHeld {s = s} (asks io now p tx_id) held =
      let w = world std json io now in
      held_or io now s held tx_id (λ x. (get_result w s p x).1) (result_same w id t s held done p)
        (λ apart.
          after_get_result w s Other (λ s'. IsHeld id t s') held (saved io now s held) p tx_id
            (owned_other w id t s held p tx_id apart))
  Step-IsHeld {s = s} (expires io now tx_id u there) held = step_expire io now s held tx_id u there

  Steps-IsHeld : {s s' : Store Doc} → Steps std json s s' → IsHeld id t s → IsHeld id t s'
  Steps-IsHeld here held = held
  Steps-IsHeld (next steps step) held = Step-IsHeld step (Steps-IsHeld steps held)

  -- A committed transaction stays as it is, with its result, through any sequence of requests to
  -- the coordinator by anyone, at any times and whatever the files do, and of rounds of the
  -- expiry on transactions as they are stored. All transactions are stored under their
  -- identifiers, and a JSON copy of the data, if one is made, is the data.
  pub committed_forever :
      (s s' : Store Doc)
      → IsNamed s
      → get_tx s id ≡ ok t
      → Steps std json s s'
      → get_tx s' id ≡ ok t
  committed_forever s s' named there steps = (Steps-IsHeld steps (named, there)).1
