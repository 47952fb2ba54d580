-- ===== src/Storage/Atomic.antt =====
-- AtomicTx: work on a copy of the data, which Commit puts in the place of the store's.
use httpkvdb.Base.{ℕ, Bool, true, false, Option, none, some, List, if◌then◌else◌}
use httpkvdb.Base.Bytes.{Bytes, bytes_key}
use httpkvdb.Base.Dict.{insert}
use httpkvdb.Model.{
  KvRecord, Transaction, ImportMode, ImportResult, Result, ok, err, atomic_closed, io_error,
}
use httpkvdb.Storage.Snapshot.{Snapshot, get_from, put_into, delete_from, import_into}
use httpkvdb.Storage.Disk.{Json, Env}
use httpkvdb.Storage.Store.{Store, save}

-- `contents` is the field `data`; the store itself is passed to `commit`.
pub record AtomicTx : Type 0 where
  pub contents : Snapshot
  pub closed : Bool

-- cloneSnapshot: through JSON and back
unfoldable pub clone_snapshot : {Doc : Type 0} → Json Doc → Snapshot → Option Snapshot
clone_snapshot json d = elim (json.marshal d) [ none ↦ none | some b ↦ json.unmarshal b ]

unfoldable pub get : AtomicTx → Bytes → Bytes → Result KvRecord
get tx u key = get_from tx.contents u key

unfoldable pub exists : AtomicTx → Bytes → Bytes → Bool
exists tx u key = elim (get_from tx.contents u key) [ err e ↦ false | ok rec ↦ true ]

unfoldable pub delete : AtomicTx → Bytes → Bytes → Result ℕ × AtomicTx
delete tx u key = let (r, d) = delete_from tx.contents u key in (r, record tx { contents = d })

unfoldable pub save_tx : AtomicTx → Transaction → AtomicTx
save_tx tx t =
    let d = tx.contents in record tx { contents = record d { txs = insert d.txs t.tx_id t } }

unfoldable pub rollback : AtomicTx → AtomicTx
rollback tx = record tx { closed = true }

module _ {Doc : Type 0} (env : Env Doc) where
  unfoldable pub begin_atomic : Store Doc → Result AtomicTx
  unfolding clone_snapshot
  begin_atomic s = elim (clone_snapshot env.json s.contents) [
    | none ↦ err io_error
    | some d ↦ ok (record { contents = d; closed = false })
  ]

  unfoldable pub put : AtomicTx → Bytes → Bytes → Bytes → Bytes → KvRecord × AtomicTx
  put tx u key value content_type =
      let (rec, d) = put_into env.std env.now tx.contents u key value content_type in
      (rec, record tx { contents = d })

  unfoldable pub import_userspace :
      AtomicTx → Bytes → List KvRecord → ImportMode → ImportResult × AtomicTx
  import_userspace tx u records mode =
      let (res, d) = import_into env.std env.now u mode tx.contents records in
      (res, record tx { contents = d })

  -- The data is the store's before the files are written, and also if they fail.
  unfoldable pub commit : AtomicTx → Store Doc → Result (Unit {0}) × AtomicTx × Store Doc
  commit tx s =
      if tx.closed
      then (err atomic_closed, tx, s)
      else (let (r, s') = save env s tx.contents in (r, record tx { closed = true }, s'))

  -- Store.ImportUserspace
  unfoldable pub import_store :
      Store Doc → Bytes → List KvRecord → ImportMode → Result ImportResult × Store Doc
  unfolding begin_atomic import_userspace commit
  import_store s u records mode = elim (begin_atomic s) [
    | err e ↦ (err e, s)
    | ok tx ↦
        let (res, tx') = import_userspace tx u records mode in
        let (r, tx'', s') = commit tx' s in (elim r [ err e ↦ err e | ok _ ↦ ok res ], s')
  ]
