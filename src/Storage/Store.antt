-- ===== src/Storage/Store.antt =====
-- The methods of Store, each under its mutex: one step from a store to the next.
use httpkvdb.Base.{ℕ, Bool, true, false, ◌||◌, none, some, List, [], map, if◌then◌else◌}
use httpkvdb.Base.Bytes.{Bytes, bytes_key, bytes_lt}
use httpkvdb.Base.Dict.{lookup, insert, member}
use httpkvdb.Golang.Sort.{sort}
use httpkvdb.Model.{KvRecord, Transaction, Result, ok, err, not_found, tx_not_found, io_error}
use httpkvdb.Storage.Snapshot.{
  Snapshot, space_of, get_from, put_into, delete_from, userspace_exists,
}
use httpkvdb.Storage.Disk.{Disk, Env, persist, load}

pub record Store (Doc : Type 0) : Type 0 where
  pub contents : Snapshot
  pub disk : Disk Doc

module _ {Doc : Type 0} (env : Env Doc) where
  -- persistLocked, with `d` the new data in memory: it stays there when the files fail.
  unfoldable pub save : Store Doc → Snapshot → Result (Unit {0}) × Store Doc
  save s d =
      let (r, disk) = persist env.json env.io d s.disk in (r, record { contents = d; disk = disk })

  -- Open, on the files of the path
  unfoldable pub open_store : Disk Doc → Result (Store Doc) × Disk Doc
  open_store disk = elim env.io.mkdir_path [
    | false ↦ (err io_error, disk)
    | true ↦
        let (r, disk') = load env.json env.io disk in
        elim r [
          | err e ↦ (err e, disk')
          | ok d ↦ (ok (record { contents = d; disk = disk' }), disk')
        ]
  ]

  unfoldable pub put : Store Doc → Bytes → Bytes → Bytes → Bytes → Result ℕ × Store Doc
  unfolding save
  put s u key value content_type =
      let (rec, d) = put_into env.std env.now s.contents u key value content_type in
      let (r, s') = save s d in (elim r [ err e ↦ err e | ok _ ↦ ok rec.version ], s')

  unfoldable pub delete : Store Doc → Bytes → Bytes → Result ℕ × Store Doc
  unfolding save
  delete s u key =
      let (r, d) = delete_from s.contents u key in
      elim r [
        | err e ↦ (err e, s)
        | ok version ↦
            let (r', s') = save s d in (elim r' [ err e ↦ err e | ok _ ↦ ok version ], s')
      ]

  unfoldable pub save_tx : Store Doc → Transaction → Result (Unit {0}) × Store Doc
  unfolding save
  save_tx s tx = let d = s.contents in save s (record d { txs = insert d.txs tx.tx_id tx })

module _ {Doc : Type 0} where
  unfoldable pub get : Store Doc → Bytes → Bytes → Result KvRecord
  get s u key = get_from s.contents u key

  unfoldable pub exists : Store Doc → Bytes → Bytes → Bool
  exists s u key = elim (get_from s.contents u key) [ err e ↦ false | ok rec ↦ true ]

  unfoldable pub export_userspace : Store Doc → Bytes → List KvRecord
  export_userspace s u =
      sort (λ a b. bytes_lt a.key b.key) (map (λ entry. entry.1) (space_of s.contents u))

  unfoldable pub list_userspace_keys : Store Doc → Bytes → Result (List KvRecord)
  unfolding export_userspace
  list_userspace_keys s u =
      let bare = λ (rec : KvRecord). record rec { value = [] } in
      let records = map bare (export_userspace s u) in
      if member s.contents.userspaces u || userspace_exists s.contents u
      then ok records
      else err not_found

  unfoldable pub get_tx : Store Doc → Bytes → Result Transaction
  get_tx s tx_id = elim (lookup s.contents.txs tx_id) [ none ↦ err tx_not_found | some tx ↦ ok tx ]

  unfoldable pub list_txs : Store Doc → List Transaction
  list_txs s = map (λ entry. entry.1) s.contents.txs
