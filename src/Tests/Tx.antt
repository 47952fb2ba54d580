-- ===== src/Tests/Tx.antt =====
-- Transactions of two operations on a small store.
use httpkvdb.Tx.Machine.{IsNamed, world, here, next, aborts, creates}
use httpkvdb.Tx.Forever.{committed_forever}
use httpkvdb.Tx.Expiry.{expire_due_expires}
use httpkvdb.Golang.Crypto.{toy_std}
use httpkvdb.Base.{◌≡◌, ◌≢◌, inr, ap, true, false, refl, none, some, List, [], ◌∷◌, arith}
use httpkvdb.Base.Int.{ℤ, pos}
use httpkvdb.Base.Bytes.{Bytes, codes, bytes_eq, bytes_eq_iff, bytes_key}
use httpkvdb.Base.Dict.{lookup, insert}
use httpkvdb.Model.{Error, TxStatus, TxOperation, Transaction, Principal, ok}
use httpkvdb.Storage.Snapshot.{Snapshot}
use httpkvdb.Storage.Store.{Store, get_tx, save_tx, save}
use httpkvdb.Storage.Disk.{persist, sync_userspace_files, sync_spaces, sync_records, write_database}
use httpkvdb.Storage.Atomic.{clone_snapshot}
use httpkvdb.Tx.Digest.{valid_tx_id}
use httpkvdb.Tx.Execute.{op_kind, op_at, seqs_from, execute}
use httpkvdb.Tx.Spec.{spec_run, spec_op, view_of, Answer, View, plain, write}
use httpkvdb.Tx.Coordinator.{
  Coordinator, expire_due, create_tx, add_op, commit, abort, get_result, failed, opened_tx,
}
use httpkvdb.Tx.Atomicity.{IsAborted, promised, execute_aborts}
use httpkvdb.Tx.Requests.{stranger_refused}
use httpkvdb.Tx.Again.{create_tx-create_tx}
use httpkvdb.Validate.{all_chars}
use httpkvdb.Tests.World.{
  plain_json, calm_io, at_time, alice, mallory, home, home_store, an_op, two_ops, with_tx,
}

-- PUT a, then GET a.
abbrev good : Transaction
good = two_ops (codes "GET") TxStatus.waiting_for_ops

-- PUT a, then an operation that is none.
abbrev bad : Transaction
bad = two_ops (codes "PATCH") TxStatus.waiting_for_ops

abbrev answers : List Answer
answers =
    plain 200
    ∷ record { status = 200; content_type = codes "text/plain"; value_base64 = codes "dg==" }
    ∷ []

abbrev seen : View
seen = write (view_of home_store.contents home) (codes "a") (some (codes "v", codes "text/plain"))

promised-bad : promised bad home_store ≡ none
unfolding spec_run spec_op op_kind op_at lookup seqs_from bytes_eq
promised-bad = refl

execute_aborts_example : IsAborted bad home_store (execute (at_time 12) bad home_store)
unfolding clone_snapshot
execute_aborts_example = execute_aborts (at_time 12) bad home_store refl refl promised-bad

-- The requests
abbrev again : TxOperation
again = an_op (pos 1) (codes "PUT") (codes "a")

-- Alice, in another userspace.
abbrev guest : Principal
guest = record alice { userspace_id = codes "away" }

elsewhere : guest.userspace_id ≢ good.userspace_id
unfolding bytes_eq
elsewhere h = absurd (clash (ap (λ u. bytes_eq u (codes "away")) h))
  where
    clash : true ≡ false → ⊥
    clash p = cc

stranger_refused_example :
    ((op : TxOperation)
      → add_op (at_time 12) (with_tx good) guest (codes "t1") op
        ≡ (failed Error.forbidden, with_tx good))
    × ((n : ℤ) (d : Bytes)
        → commit (at_time 12) (with_tx good) guest (codes "t1") n d
          ≡ (failed Error.forbidden, with_tx good))
    × (abort (at_time 12) (with_tx good) guest (codes "t1")
        ≡ (failed Error.forbidden, with_tx good))
    × (get_result (at_time 12) (with_tx good) guest (codes "t1")
        ≡ (failed Error.forbidden, with_tx good))
unfolding get_tx lookup bytes_eq
stranger_refused_example =
    stranger_refused (at_time 12) (with_tx good) guest (codes "t1") good refl (inr elsewhere)

abbrev limits : Coordinator
limits = record { max_ops = pos 100; default_timeout = pos 60; max_timeout = pos 600 }

abbrev fresh_tx : Transaction
fresh_tx = opened_tx (at_time 12) alice (pos 2) (pos 60) (codes "client-tx-00000001")

abbrev created_store : Store Snapshot
created_store = (create_tx (at_time 12) limits [] home_store alice (pos 2) (pos 0) fresh_tx.tx_id).1

first_created :
    create_tx (at_time 12) limits [] home_store alice (pos 2) (pos 0) fresh_tx.tx_id
    ≡ (ok fresh_tx, created_store)
unfolding create_tx get_tx save_tx save persist sync_userspace_files sync_spaces sync_records
    write_database lookup insert bytes_eq valid_tx_id all_chars
first_created = refl

create_tx-create_tx_example :
    create_tx (at_time 40) limits (codes "x") created_store alice (pos 2) (pos 0) fresh_tx.tx_id
    ≡ (ok fresh_tx, created_store)
create_tx-create_tx_example =
    create_tx-create_tx (at_time 12) (at_time 40) limits [] (codes "x") home_store created_store
      alice (pos 2) (pos 0) fresh_tx.tx_id fresh_tx refl first_created

-- A committed transaction, and two requests of a stranger and of its owner.
abbrev committed_store : Store Snapshot
committed_store = with_tx (two_ops (codes "GET") TxStatus.committed)

abbrev after_abort : Store Snapshot
after_abort = (abort (world toy_std plain_json calm_io 12) committed_store mallory (codes "t1")).1

abbrev after_create : Store Snapshot
after_create =
    (create_tx (world toy_std plain_json calm_io 13)
      (record { max_ops = pos 10; default_timeout = pos 5; max_timeout = pos 50 }) (codes "t2")
      after_abort alice (pos 1) (pos 5) []).1

one_name : (t : Transaction) → t.tx_id ≡ codes "t1" → IsNamed (with_tx t)
unfolding lookup
one_name t name k u h = ground (arith, bytes_eq_iff (codes "t1") k)

committed_forever_example :
    get_tx after_create (codes "t1") ≡ ok (two_ops (codes "GET") TxStatus.committed)
unfolding get_tx lookup clone_snapshot bytes_eq
committed_forever_example =
    committed_forever toy_std plain_json (λ d d' h. cc) (codes "t1")
      (two_ops (codes "GET") TxStatus.committed) refl committed_store after_create
      (one_name (two_ops (codes "GET") TxStatus.committed) refl) refl
      (next (next here (aborts calm_io 12 mallory (codes "t1"))) (
        creates calm_io 13
          (record { max_ops = pos 10; default_timeout = pos 5; max_timeout = pos 50 }) (codes "t2")
          alice (pos 1) (pos 5) []))

expire_due_expires_example :
    get_tx
      (expire_due (λ id. at_time 21) (with_tx (two_ops (codes "GET") TxStatus.pending))).1
      (codes "t1")
    ≡ ok (two_ops (codes "GET") TxStatus.expired)
unfolding get_tx lookup bytes_eq
expire_due_expires_example =
    expire_due_expires (λ id. at_time 21) (with_tx (two_ops (codes "GET") TxStatus.pending))
      (tt, tt) (refl, tt) (codes "t1") (two_ops (codes "GET") TxStatus.pending) refl
