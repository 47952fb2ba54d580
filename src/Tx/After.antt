-- ===== src/Tx/After.antt =====
-- How the requests to the coordinator go from a store to the next.
use httpkvdb.Base.{◌≡◌, true, none, some, if◌then◌else◌, ◌⊎◌, inl, inr, arith}
use httpkvdb.Base.Int.{ℤ, pos, leb_ℤ, int_eq}
use httpkvdb.Base.Bytes.{Bytes, bytes_eq_iff, codes, is_empty}
use httpkvdb.Model.{Error, Principal, Transaction, TxOperation, TxStatus, Result-cases, ok, err}
use httpkvdb.Storage.Disk.{Env}
use httpkvdb.Storage.Store.{Store, get_tx, save_tx}
use httpkvdb.Tx.Execute.{execute}
use httpkvdb.Tx.Coordinator.{
  Coordinator, Reply, is_open, status_of, failed, opened_tx, stamped, load_owned, owns,
  expire_if_needed, mutable, create_tx, accept_op, add_op, abort, get_result,
}
use httpkvdb.Tx.Coordinator
use httpkvdb.Base.Dict.{insert}

-- The transaction of a request is one of the caller's userspace.
pub load_owned-eq-ok :
    {Doc : Type 0} (s : Store Doc) (p : Principal) (tx_id : Bytes) (t : Transaction)
    → load_owned s p tx_id ≡ ok t
    → t.userspace_id ≡ p.userspace_id
unfolding load_owned
load_owned-eq-ok s p tx_id t h = ground (arith, bytes_eq_iff t.userspace_id p.userspace_id)

-- A request leaves the store as it is, saves one transaction or executes one. `Own` holds of the
-- identifier and the userspace of such a transaction; what holds after each of these steps holds
-- after the request.
module _ {Doc : Type 0} (env : Env Doc) (s : Store Doc) (Own : Bytes → Bytes → Type 0)
    (After : Store Doc → Type 0) (same : After s)
    (saved : (t : Transaction) → Own t.tx_id t.userspace_id → After (save_tx env s t).1) where
  -- The stored transactions that the request may load.
  abbrev pub Owned : Principal → Bytes → Type 0
  Owned p tx_id = (t : Transaction) → load_owned s p tx_id ≡ ok t → Own t.tx_id t.userspace_id

  pub after_expire_if_needed :
      (t : Transaction) → Own t.tx_id t.userspace_id → After (expire_if_needed env t s).2
  unfolding expire_if_needed
  after_expire_if_needed t o = ground (arith, saved (record t { status = TxStatus.expired }) o)

  after_mutable : (t : Transaction) → Own t.tx_id t.userspace_id → After (mutable env t s).1
  unfolding mutable
  after_mutable t o = ground (arith, after_expire_if_needed t o)

  pub after_create_tx :
      (c : Coordinator) (fresh : Bytes) (p : Principal) (total_ops timeout : ℤ) (requested : Bytes)
      → ((e : Error)
          → get_tx s (if is_empty requested then fresh else requested) ≡ err e
          → Own (if is_empty requested then fresh else requested) p.userspace_id)
      → After (create_tx env c fresh s p total_ops timeout requested).1
  unfolding create_tx
  after_create_tx c fresh p total_ops timeout requested free =
      let timeout' = if leb_ℤ timeout (pos 0) then c.default_timeout else timeout in
      let tx_id = if is_empty requested then fresh else requested in
      elim (Result-cases (get_tx s tx_id)) [
        | inl (t, h) ↦ ground arith
        | inr (e, h) ↦ ground (arith, saved (opened_tx env p total_ops timeout' tx_id) (free e h))
      ]

  pub after_get_result :
      (p : Principal) (tx_id : Bytes) → Owned p tx_id → After (get_result env s p tx_id).1
  unfolding get_result
  after_get_result p tx_id owned = elim (Result-cases (load_owned s p tx_id)) [
    | inl (t, h) ↦ ground (arith, after_expire_if_needed t (owned t h))
    | inr (e, h) ↦ ground arith
  ]

  pub after_abort : (p : Principal) (tx_id : Bytes) → Owned p tx_id → After (abort env s p tx_id).1
  unfolding abort
  after_abort p tx_id owned = elim (Result-cases (load_owned s p tx_id)) [
    | inl (t, h) ↦ ground (
      arith,
      saved (record t { status = TxStatus.aborted; abort_reason = codes "client aborted" })
          (owned t h),
    )
    | inr (e, h) ↦ ground arith
  ]

  mutable_cases :
      (t : Transaction)
      → (mutable env t s ≡ (none, s)) ⊎ ((e : Error) × ((mutable env t s).0 ≡ some e))
  unfolding mutable expire_if_needed
  mutable_cases t = ground arith

  module _
      (executed : (t : Transaction) → Own t.tx_id t.userspace_id → After (execute env t s).1) where
    after_accept_op :
        (t : Transaction) (op : TxOperation)
        → Own t.tx_id t.userspace_id
        → After (accept_op env t s op).1
    unfolding accept_op
    after_accept_op t op o =
        let t' : Transaction = record t { ops = insert t.ops op.seq op } in
        ground (
          arith,
          saved (record t { status = TxStatus.aborted; abort_reason = codes "SEQ_CONFLICT" }) o,
          saved (record t' { status = TxStatus.waiting_for_ops }) o,
          saved (record t' { status = TxStatus.pending }) o,
          executed t' o,
        )

    pub after_add_op :
        (p : Principal) (tx_id : Bytes) (op : TxOperation)
        → Owned p tx_id
        → After (add_op env s p tx_id op).1
    unfolding add_op
    after_add_op p tx_id op owned = elim (Result-cases (load_owned s p tx_id)) [
      | inr (e, l) ↦ ground arith
      | inl (t, l) ↦ elim (mutable_cases t) [
        | inr (e, m) ↦ ground (arith, after_mutable t (owned t l))
        | inl m ↦
            rw (l, add_op)
              (rw (m, add_op)
                (rw (m, add_op)
                  (ground (arith, after_accept_op t (stamped env tx_id op) (owned t l)))))
      ]
    ]

    pub after_commit :
        (p : Principal) (tx_id : Bytes) (total_ops : ℤ) (tx_digest : Bytes)
        → Owned p tx_id
        → After (Coordinator.commit env s p tx_id total_ops tx_digest).1
    unfolding Coordinator.commit
    after_commit p tx_id total_ops tx_digest owned = elim (Result-cases (load_owned s p tx_id)) [
      | inr (e, l) ↦ ground arith
      | inl (t, l) ↦
          let t' : Transaction = record t { commit_received = true; tx_digest = tx_digest } in
          elim (mutable_cases t) [
            | inr (e, m) ↦ ground (arith, after_mutable t (owned t l))
            | inl m ↦ ground (
              arith,
              saved (record t' { status = TxStatus.waiting_for_ops }) (owned t l),
              executed t' (owned t l),
            )
          ]
    ]
