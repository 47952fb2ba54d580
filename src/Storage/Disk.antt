-- ===== src/Storage/Disk.antt =====
-- The files behind the store: httpkvdb.json, its temporary, and the value files under userspaces/.
-- os and encoding/json are parameters: what they do in one operation is an `Io`.
use httpkvdb.Base.{
  Bool, true, false, not, ◌&&◌, ◌||◌, Option, none, some, List, [], ◌∷◌, ◌++◌, if◌then◌else◌,
}
use httpkvdb.Base.Bytes.{Bytes, codes, bytes_eq, bytes_key, is_empty}
use httpkvdb.Base.Dict.{Dict, lookup, insert}
use httpkvdb.Golang.Crypto.{Std}
use httpkvdb.Golang.Encoding.{base64_raw_url}
use httpkvdb.Model.{KvRecord, Time, Result, ok, err, io_error}
use httpkvdb.Validate.{validate_userspace_id, is_segment_char, all_chars, media_type}
use httpkvdb.Storage.Snapshot.{Snapshot, Space, empty_snapshot}

-- json.Marshal (and MarshalIndent, whose text reads the same) and json.Unmarshal.
pub record Json (Doc : Type 0) : Type 0 where
  pub marshal : Snapshot → Option Doc
  pub unmarshal : Doc → Option Snapshot
  pub is_blank : Doc → Bool

-- A call that can fail, and what a failed one leaves behind.
pub data Outcome (A : Type 0) : Type 0 where
  success : Outcome A
  failure : A → Outcome A

abbrev pub Files : Type 0
Files = Dict Bytes Bytes

-- Directories under userspaces/, and the files in each.
abbrev pub Mirror : Type 0
Mirror = Dict Bytes Files

pub record Disk (Doc : Type 0) : Type 0 where
  pub file : Option Doc
  pub tmp : Option Doc
  pub mirror : Mirror

-- What the calls of package os do while one operation runs.
pub record Io (Doc : Type 0) : Type 0 where
  pub mkdir_path : Bool
  pub read_file : Bool
  pub write_tmp : Outcome (Option Doc)
  pub rename : Bool
  pub remove_all : Outcome Mirror
  pub mkdir : Bytes → Bool
  pub write_file : Bytes → Bytes → Outcome Files

-- The world of one operation: the libraries, the files, and the clock, read once.
pub record Env (Doc : Type 0) : Type 0 where
  pub std : Std
  pub json : Json Doc
  pub io : Io Doc
  pub now : Time

unfoldable pub safe_userspace_dir : Bytes → Bytes
safe_userspace_dir u = elim (validate_userspace_id u) [
  | ok _ ↦ u
  | err _ ↦ codes "u_" ++ base64_raw_url u
]

-- ^[A-Za-z0-9._-]+$
unfoldable pub match_safe_segment : Bytes → Bool
match_safe_segment key = not (is_empty key) && all_chars is_segment_char key

unfoldable pub value_file_extension : Bytes → Bytes
value_file_extension content_type =
    let ct = media_type content_type in
    if bytes_eq ct (codes "text/plain")
    then codes ".txt"
    else if bytes_eq ct (codes "application/json")
    then codes ".json"
    else if bytes_eq ct (codes "application/octet-stream")
    then codes ".bin"
    else []

unfoldable pub value_file_name : Bytes → Bytes → Bytes
unfolding match_safe_segment value_file_extension
value_file_name key content_type =
    let encoded = codes "k_" ++ base64_raw_url key in
    let name =
      if bytes_eq key (codes ".") || bytes_eq key (codes "..") || not (match_safe_segment key)
      then encoded
      else key in
    name ++ value_file_extension content_type

abbrev pub dir_files : Option Files → Files
dir_files none = []
dir_files (some files) = files

module _ {Doc : Type 0} (io : Io Doc) where
  -- The inner loop of syncUserspaceFilesLocked, over the files of one directory.
  unfoldable pub sync_records : Bytes → List (Bytes × KvRecord) → Files → Result (Unit {0}) × Files
  sync_records dir [] files = (ok tt, files)
  sync_records dir ((key, rec) ∷ records) files =
      let name = value_file_name key rec.content_type in
      elim (io.write_file dir name) [
        | failure left ↦ (err io_error, left)
        | success ↦ sync_records dir records (insert files name rec.value)
      ]

  -- The outer loop.
  unfoldable pub sync_spaces : List (Bytes × Space) → Mirror → Result (Unit {0}) × Mirror
  sync_spaces [] mirror = (ok tt, mirror)
  sync_spaces ((u, records) ∷ rest) mirror =
      let dir = safe_userspace_dir u in
      elim (io.mkdir dir) [
        | false ↦ (err io_error, mirror)
        | true ↦
            let (r, files) = sync_records dir records (dir_files (lookup mirror dir)) in
            elim r [
              | err e ↦ (err e, insert mirror dir files)
              | ok _ ↦ sync_spaces rest (insert mirror dir files)
            ]
      ]

  unfoldable pub sync_userspace_files : Snapshot → Result (Unit {0}) × Mirror
  sync_userspace_files d = elim io.remove_all [
    | failure left ↦ (err io_error, left)
    | success ↦ sync_spaces d.userspaces []
  ]

  -- os.WriteFile(tmp), os.Rename(tmp, path)
  unfoldable pub write_database : Doc → Disk Doc → Result (Unit {0}) × Disk Doc
  write_database b disk = elim io.write_tmp [
    | failure left ↦ (err io_error, record disk { tmp = left })
    | success ↦
        if io.rename
        then (ok tt, record disk { file = some b; tmp = none })
        else (err io_error, record disk { tmp = some b })
  ]

module _ {Doc : Type 0} (json : Json Doc) (io : Io Doc) where
  unfoldable pub persist : Snapshot → Disk Doc → Result (Unit {0}) × Disk Doc
  persist d disk = elim (json.marshal d) [
    | none ↦ (err io_error, disk)
    | some b ↦
        let (r, disk') = write_database io b disk in
        elim r [
          | err e ↦ (err e, disk')
          | ok _ ↦
              let (r', mirror) = sync_userspace_files io d in (r', record disk' { mirror = mirror })
        ]
  ]

  -- Store.load: the data in memory, and the files.
  unfoldable pub load : Disk Doc → Result Snapshot × Disk Doc
  load disk = elim io.read_file [
    | false ↦ (err io_error, disk)
    | true ↦ elim disk.file [
      | none ↦
          let (r, disk') = persist empty_snapshot disk in
          elim r [ err e ↦ (err e, disk') | ok _ ↦ (ok empty_snapshot, disk') ]
      | some b ↦
          if json.is_blank b
          then (ok empty_snapshot, disk)
          else elim (json.unmarshal b) [ none ↦ (err io_error, disk) | some d ↦ (ok d, disk) ]
    ]
  ]
