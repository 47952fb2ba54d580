-- ===== src/Tests/Storage.antt =====
-- The store on small data.
use httpkvdb.Base.{
  List, ◌≡◌, refl, sym, true, false, some, [], ◌∷◌, ◌⊎◌, arith, if◌then◌else◌, length, replicate,
  ltb,
}
use httpkvdb.Base.Bytes.{Bytes, codes, bytes_eq}
use httpkvdb.Base.Dict.{lookup, member}
use httpkvdb.Model.{Transaction, TxStatus, merge_skip, KvRecord, ok, err, not_found, io_error}
use httpkvdb.Validate.{value_type, checksum}
use httpkvdb.Storage.Snapshot.{Snapshot, empty_snapshot, get_from, next_version, userspace_exists}
use httpkvdb.Golang.Text.{before, to_lower, trim_space}
use httpkvdb.Storage.Disk.{
  persist, write_database, sync_userspace_files, sync_spaces, sync_records, Env, success, failure,
}
use httpkvdb.Storage.Store.{get_tx, Store, save, put, get, delete, open_store}
use httpkvdb.Storage.Accounts.{delete_userspace, replace_userspace_api_key_hash}
use httpkvdb.Storage.Durable.{Survives, IsRestart, reopen-save, reopen-save_any}
use httpkvdb.Storage.Operations.{get-put, get-delete}
use httpkvdb.Storage.Records.{same_place}
use httpkvdb.Storage.LongNames.{LimitsNames, put_blocked}
use httpkvdb.Storage.Erasure.{IsWithout, delete_userspace_erases}
use httpkvdb.Storage.Rekey.{IsRekeyed, replace_rekeys}
use httpkvdb.Storage.Store
use httpkvdb.Storage.Atomic.{clone_snapshot, begin_atomic, import_userspace, import_store, commit}
use httpkvdb.Storage.Atomic
use httpkvdb.Storage.Import.{first_of, content_at, content_at-import_store}
use httpkvdb.Storage.LostUpdates.{commit_loses}
use httpkvdb.Tests.World.{
  two_ops, at_time, calm_io, home, home_store, greeting, store_of, empty_disk,
}

abbrev now : Env Snapshot
now = at_time 12000000

abbrev changed : Snapshot
changed = record home_store.contents { version = 2 }

now-IsRestart : IsRestart now (at_time 99)
now-IsRestart = record { same_json = refl; path_made = refl; file_read = refl }

changed-Survives : Survives now.json changed
changed-Survives = record { back = λ b h. sym h; written = λ b h. refl }

reopen-save_example :
    (open_store (at_time 99) (save now home_store changed).1.disk).0
    ≡ ok (save now home_store changed).1
unfolding save persist write_database sync_userspace_files sync_spaces sync_records
reopen-save_example =
    reopen-save now (at_time 99) home_store changed now-IsRestart changed-Survives refl

-- The files break behind the temporary file.
abbrev torn : Env Snapshot
torn = record now { io = record calm_io { rename = false } }

abbrev on_disk : Store Snapshot
on_disk = record {
  contents = home_store.contents;
  disk = record empty_disk { file = some home_store.contents };
}

reopen-save_any_example :
    ((open_store (at_time 99) (save torn on_disk changed).1.disk).0
      ≡ ok (record { contents = home_store.contents; disk = (save torn on_disk changed).1.disk }))
    ⊎ ((open_store (at_time 99) (save torn on_disk changed).1.disk).0
        ≡ ok (record { contents = changed; disk = (save torn on_disk changed).1.disk }))
reopen-save_any_example =
    reopen-save_any torn (at_time 99) on_disk changed home_store.contents
      (record { same_json = refl; path_made = refl; file_read = refl })
      (record { back = λ b h. sym h; written = λ b h. refl })
      (record { doc = home_store.contents; at = refl; reads = refl; not_blank = refl })

get-put_example :
    get
      (put now home_store home (codes "k") (codes "{}") (codes "application/json")).1
      home
      (codes "k")
    ≡ ok (record greeting {
      value = codes "{}";
      content_type = codes "application/json";
      value_type = codes "json";
      updated_at = 12000000;
      checksum = checksum now.std (codes "{}");
    })
unfolding bytes_eq value_type next_version get to_lower get_from trim_space lookup before
get-put_example =
    get-put now home_store home (codes "k") (codes "{}") (codes "application/json") home (codes "k")

-- The files of a system that limits names.
abbrev strict : Env Snapshot
strict = record now {
  io = record calm_io {
    write_file = λ dir name. if ltb 255 (length name) then failure [] else success;
  };
}

strict-LimitsNames : LimitsNames strict.io
strict-LimitsNames dir name h p = ground arith

abbrev long_key : Bytes
long_key = replicate 256 97

abbrev long_store : Store Snapshot
long_store = store_of (record empty_snapshot {
  userspaces = (home, (long_key, record greeting { key = long_key }) ∷ []) ∷ [];
})

put_blocked_example :
    (put strict long_store (codes "other") (codes "x") (codes "v") (codes "text/plain")).0
    ≡ err io_error
unfolding get get_from lookup bytes_eq
put_blocked_example =
    put_blocked strict strict-LimitsNames long_store home long_key
      (record greeting { key = long_key }) (omega arith) refl (codes "other") (codes "x")
      (codes "v") (codes "text/plain")

delete_userspace_erases_example :
    ((userspace_exists home_store.contents home ≡ true)
      × IsWithout home home_store (delete_userspace now home_store home).1)
    ⊎ ((userspace_exists home_store.contents home ≡ false)
        × (delete_userspace now home_store home ≡ (err not_found, home_store)))
delete_userspace_erases_example =
    delete_userspace_erases now home_store home
      (record { keys = tt; subjects = tt; transactions = tt })

replace_rekeys_example :
    IsRekeyed home
      (codes "h2")
      home_store
      (replace_userspace_api_key_hash now home_store home (codes "h2")).1
unfolding userspace_exists member bytes_eq
replace_rekeys_example = replace_rekeys now home_store home (codes "h2") tt refl

-- A file with two records, one of them under a key that is there.
abbrev import_file : List KvRecord
import_file =
    record greeting { value = codes "new" }
    ∷ record greeting { key = codes "j"; value = codes "n" }
    ∷ []

content_at-import_store_example :
    content_at (import_store now home_store home import_file merge_skip).1 home (codes "k")
    ≡ some (codes "hi", codes "text/plain")
unfolding clone_snapshot first_of get get_from lookup bytes_eq
content_at-import_store_example =
    content_at-import_store now home import_file merge_skip home_store home (codes "k") refl

-- Between BeginAtomic and Commit, another request saves a transaction.
abbrev between : Store Snapshot
between = (Store.save_tx now home_store (two_ops (codes "GET") TxStatus.pending)).1

abbrev own : Transaction
own = record (two_ops (codes "GET") TxStatus.committed) { tx_id = codes "t2" }

abbrev after_commit : Store Snapshot
after_commit =
    (commit now (Atomic.save_tx (record { contents = home_store.contents; closed = false }) own)
      between).2

commit_loses_example :
    ((u key : Bytes) → get after_commit u key ≡ get home_store u key)
    × ((tx_id : Bytes)
        → get_tx after_commit tx_id
          ≡ (if bytes_eq own.tx_id tx_id then ok own else get_tx home_store tx_id))
unfolding clone_snapshot begin_atomic
commit_loses_example =
    commit_loses now home_store (record { contents = home_store.contents; closed = false }) own refl
      refl between

get-delete_example :
    (((rec : KvRecord) × (get home_store home (codes "k") ≡ ok rec))
      ⊎ (delete now home_store home (codes "k") ≡ (err not_found, home_store)))
    × ((u' key' : Bytes)
        → get (delete now home_store home (codes "k")).1 u' key'
          ≡ (if same_place home (codes "k") u' key' then err not_found else get home_store u' key'))
get-delete_example = get-delete now home_store home (codes "k")
