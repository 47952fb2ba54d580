-- ===== src/Storage/Snapshot.antt =====
-- The data of the store, and the functions of storage.go that work on it alone. A map is never nil
-- here, so `ensureMaps` has nothing to do; the copies of `cloneRecord` and `cloneTx` are the values.
use httpkvdb.Base.{
  ℕ, ◌+◌, ◌%◌, ◌^◌, Bool, true, false, ◌&&◌, Option, none, some, List, [], ◌∷◌, if◌then◌else◌,
}
use httpkvdb.Base.Bytes.{Bytes, bytes_eq, bytes_key}
use httpkvdb.Base.Dict.{Dict, lookup, insert, delete, member, any_value}
use httpkvdb.Golang.Crypto.{Std}
use httpkvdb.Model.{
  Time, is_zero_time, KvRecord, Principal, Transaction, ImportMode, replace, merge_skip,
  ImportResult, Result, ok, err, not_found,
}
use httpkvdb.Validate.{value_type, checksum}

pub record ApiKeyRecord : Type 0 where
  pub hash : Bytes
  pub principal : Principal
  pub active : Bool

pub record JwtSubjectRecord : Type 0 where
  pub subject : Bytes
  pub principal : Principal
  pub active : Bool

abbrev pub Space : Type 0
Space = Dict Bytes KvRecord

pub record Snapshot : Type 0 where
  pub version : ℕ
  pub userspaces : Dict Bytes Space
  pub api_keys : Dict Bytes ApiKeyRecord
  pub jwt_subjects : Dict Bytes JwtSubjectRecord
  pub txs : Dict Bytes Transaction

abbrev pub empty_snapshot : Snapshot
empty_snapshot = record { version = 0; userspaces = []; api_keys = []; jwt_subjects = []; txs = [] }

abbrev pub or_empty : Option Space → Space
or_empty none = []
or_empty (some space) = space

-- d.Userspaces[u], read: no entries if there is none.
unfoldable pub space_of : Snapshot → Bytes → Space
space_of d u = or_empty (lookup d.userspaces u)

-- d.Version++ on a uint64
unfoldable pub next_version : ℕ → ℕ
next_version v = (v + 1) % 2 ^ 64

abbrev pub found : Option KvRecord → Result KvRecord
found none = err not_found
found (some rec) = ok rec

unfoldable pub get_from : Snapshot → Bytes → Bytes → Result KvRecord
get_from d u key = elim (lookup d.userspaces u) [
  | none ↦ err not_found
  | some space ↦ found (lookup space key)
]

abbrev pub created_or : Time → Option KvRecord → Time
created_or now none = now
created_or now (some old) = old.created_at

unfoldable pub put_into :
    Std → Time → Snapshot → Bytes → Bytes → Bytes → Bytes → KvRecord × Snapshot
put_into std now d u key value content_type =
    let space = space_of d u in
    let version = next_version d.version in
    let rec : KvRecord = record {
      userspace_id = u;
      key = key;
      value = value;
      content_type = content_type;
      value_type = value_type content_type;
      version = version;
      created_at = created_or now (lookup space key);
      updated_at = now;
      checksum = checksum std value;
    } in
    (rec, record d { version = version; userspaces = insert d.userspaces u (insert space key rec) })

-- The body of Store.Delete and of AtomicTx.Delete.
unfoldable pub delete_from : Snapshot → Bytes → Bytes → Result ℕ × Snapshot
delete_from d u key = elim (get_from d u key) [
  | err e ↦ (err e, d)
  | ok rec ↦
      let version = next_version d.version in
      (
        ok version,
        record d {
          version = version;
          userspaces = insert d.userspaces u (delete (space_of d u) key);
        },
      )
]

unfoldable pub userspace_exists : Snapshot → Bytes → Bool
userspace_exists d u =
    if member d.userspaces u
    then true
    else if any_value (λ rec. bytes_eq rec.principal.userspace_id u) d.api_keys
    then true
    else any_value (λ rec. bytes_eq rec.principal.userspace_id u) d.jwt_subjects

-- The variables of the loop of ImportUserspace.
pub record Importing : Type 0 where
  pub version : ℕ
  pub space : Space
  pub result : ImportResult

abbrev pub is_skip : ImportMode → Bool
is_skip merge_skip = true
is_skip _ = false

module _ (std : Std) (now : Time) (u : Bytes) (mode : ImportMode) where
  -- What is stored for a record of the file.
  unfoldable pub imported_record : ℕ → KvRecord → KvRecord
  imported_record version rec = record rec {
    userspace_id = u;
    version = version;
    created_at = if is_zero_time rec.created_at then now else rec.created_at;
    updated_at = now;
    checksum = checksum std rec.value;
    value_type = value_type rec.content_type;
  }

  -- One round of the loop.
  unfoldable pub import_record : Importing → KvRecord → Importing
  unfolding imported_record
  import_record s rec =
      let exists = member s.space rec.key in
      let r = s.result in
      let version = next_version s.version in
      if exists && is_skip mode
      then record s { result = record r { skipped = r.skipped + 1 } }
      else record {
        version = version;
        space = insert s.space rec.key (imported_record version rec);
        result = record r {
          imported = r.imported + 1;
          replaced = if exists then r.replaced + 1 else r.replaced;
        };
      }

  unfoldable pub import_records : Importing → List KvRecord → Importing
  unfolding import_record
  import_records s [] = s
  import_records s (rec ∷ records) = import_records (import_record s rec) records

  abbrev pub start_space : ImportMode → Space → Space
  start_space replace space = []
  start_space _ space = space

  unfoldable pub import_into : Snapshot → List KvRecord → ImportResult × Snapshot
  unfolding import_records
  import_into d records =
      let start : Importing = record {
        version = d.version;
        space = start_space mode (space_of d u);
        result = record { imported = 0; skipped = 0; replaced = 0 };
      } in
      let s = import_records start records in
      (s.result, record d { version = s.version; userspaces = insert d.userspaces u s.space })
