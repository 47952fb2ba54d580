-- ===== src/Tx/Requests.antt =====
-- The requests on a transaction: who may make them, and what they do to one that has ended.
use httpkvdb.Base.{◌≡◌, ◌≢◌, ◌⊎◌, inl, inr, arith, refl, true, false, none, some, lt→ltb, ◌<◌}
use httpkvdb.Base.Int.{ℤ, int_eq}
use httpkvdb.Base.Bytes.{Bytes, bytes_key, bytes_eq_iff}
use httpkvdb.Model.{Error, ok, err, Principal, TxStatus, TxOperation, Transaction}
use httpkvdb.Storage.Disk.{Env}
use httpkvdb.Storage.Store.{Store, get_tx, save_tx}
use httpkvdb.Tx.Coordinator.{
  status_of, load_owned, expire_if_needed, mutable, add_op, commit, abort, get_result, failed, owns,
  is_open, is_committed,
}

open_not_committed : (x : TxStatus) → is_open x ≡ true → is_committed x ≡ false
open_not_committed TxStatus.pending i = refl
open_not_committed TxStatus.waiting_for_ops i = refl
open_not_committed TxStatus.ready i = refl
open_not_committed TxStatus.committing i = refl
open_not_committed TxStatus.committed i = cc
open_not_committed TxStatus.aborted i = refl
open_not_committed TxStatus.expired i = refl

module _ {Doc : Type 0} (env : Env Doc) (s : Store Doc) (p : Principal) (tx_id : Bytes)
    (t : Transaction) where
  load_stranger :
      get_tx s tx_id ≡ ok t → owns p t ≡ false → load_owned s p tx_id ≡ err Error.forbidden
  unfolding load_owned
  load_stranger h o = rw (h, load_owned) (rw o refl)

  pub load_owner : get_tx s tx_id ≡ ok t → owns p t ≡ true → load_owned s p tx_id ≡ ok t
  unfolding load_owned
  load_owner h o = rw (h, load_owned) (rw o refl)

  pub not_owned :
      get_tx s tx_id ≡ ok t
      → owns p t ≡ false
      → ((op : TxOperation) → add_op env s p tx_id op ≡ (failed Error.forbidden, s))
        × ((n : ℤ) (d : Bytes) → commit env s p tx_id n d ≡ (failed Error.forbidden, s))
        × (abort env s p tx_id ≡ (failed Error.forbidden, s))
        × (get_result env s p tx_id ≡ (failed Error.forbidden, s))
  unfolding add_op commit abort get_result
  not_owned h o =
      let l = load_stranger h o in
      (
        λ op. rw (l, add_op) refl,
        λ n d. rw (l, commit) refl,
        rw (l, abort) refl,
        rw (l, get_result) refl,
      )

  stranger_owns : (p.user_id ≢ t.user_id) ⊎ (p.userspace_id ≢ t.userspace_id) → owns p t ≡ false
  stranger_owns (inl n) = ground (arith, bytes_eq_iff t.user_id p.user_id)
  stranger_owns (inr n) = ground (arith, bytes_eq_iff t.userspace_id p.userspace_id)

  -- A caller who is another user than the one that a stored transaction belongs to, or the same
  -- user in another userspace, gets the error forbidden from every request on it, and the store
  -- is unchanged.
  pub stranger_refused :
      get_tx s tx_id ≡ ok t
      → (p.user_id ≢ t.user_id) ⊎ (p.userspace_id ≢ t.userspace_id)
      → ((op : TxOperation) → add_op env s p tx_id op ≡ (failed Error.forbidden, s))
        × ((n : ℤ) (d : Bytes) → commit env s p tx_id n d ≡ (failed Error.forbidden, s))
        × (abort env s p tx_id ≡ (failed Error.forbidden, s))
        × (get_result env s p tx_id ≡ (failed Error.forbidden, s))
  stranger_refused h o = not_owned h (stranger_owns o)

  expire_committed : t.status ≡ TxStatus.committed → expire_if_needed env t s ≡ (false, t, s)
  unfolding expire_if_needed
  expire_committed c = rw c refl

  mutable_committed :
      t.status ≡ TxStatus.committed → mutable env t s ≡ (some Error.already_committed, s)
  unfolding mutable
  mutable_committed c = rw (expire_committed c, mutable) (rw c refl)

  -- A request of its owner on a committed transaction changes nothing in the store: adding an
  -- operation and aborting get the error that it is committed, and committing again and asking
  -- for the result give its status and its result.
  pub committed_final :
      get_tx s tx_id ≡ ok t
      → owns p t ≡ true
      → t.status ≡ TxStatus.committed
      → ((op : TxOperation) → add_op env s p tx_id op ≡ (failed Error.already_committed, s))
        × ((n : ℤ) (d : Bytes)
            → commit env s p tx_id n d
              ≡ (record { status = some (status_of t); result = t.result; error = none }, s))
        × (abort env s p tx_id ≡ (failed Error.already_committed, s))
        × (get_result env s p tx_id
            ≡ (record { status = some (status_of t); result = t.result; error = none }, s))
  unfolding add_op commit abort get_result
  committed_final h o c =
      let l = load_owner h o in
      let m = mutable_committed c in
      (
        λ op. rw (l, add_op) (rw m (rw m refl)),
        λ n d. rw (l, commit) (rw c refl),
        rw (l, abort) (rw c refl),
        rw (l, get_result) (rw (expire_committed c) refl),
      )

  mutable_late :
      is_open t.status ≡ true
      → t.deadline < env.now
      → mutable env t s
        ≡ (some Error.expired, (save_tx env s (record t { status = TxStatus.expired })).1)
  unfolding mutable expire_if_needed
  mutable_late i l = rw i (rw (lt→ltb t.deadline env.now l) refl)

  -- After the deadline of an open transaction, adding an operation and committing get the error
  -- that it is expired, and all they do is to save it as expired: its operations are not run.
  pub late_expires :
      get_tx s tx_id ≡ ok t
      → owns p t ≡ true
      → is_open t.status ≡ true
      → t.deadline < env.now
      → ((op : TxOperation)
          → add_op env s p tx_id op
            ≡ (failed Error.expired, (save_tx env s (record t { status = TxStatus.expired })).1))
        × ((n : ℤ) (d : Bytes)
            → commit env s p tx_id n d
              ≡ (failed Error.expired, (save_tx env s (record t { status = TxStatus.expired })).1))
  unfolding add_op commit
  late_expires h o i l =
      let own = load_owner h o in
      let m = mutable_late i l in
      (
        λ op. rw (own, add_op) (rw m (rw m refl)),
        λ n d. rw (own, commit) (rw (open_not_committed t.status i) (rw m (rw m refl))),
      )
