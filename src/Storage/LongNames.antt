-- ===== src/Storage/LongNames.antt =====
-- The value files of long keys, where the file system limits names.
use httpkvdb.Base.{
  ℕ, ◌≤◌, ◌<◌, ◌≡◌, ◌≢◌, ◌⊎◌, refl, some, [], ◌∷◌, ◌++◌, length, length-append, ◌∙◌, arith,
  Bool-cases, Option-cases, inl, inr,
}
use httpkvdb.Base.Bytes.{Bytes, codes, bytes_eq_iff, bytes_key}
use httpkvdb.Base.Dict.{Dict, lookup, insert}
use httpkvdb.Golang.Encoding.{base64, base64_digit, base64_raw_url}
use httpkvdb.Model.{KvRecord, ok, err, io_error}
use httpkvdb.Storage.Snapshot.{Snapshot, Space, get_from, put_into}
use httpkvdb.Storage.Disk.{
  Disk, Io, Env, Files, Mirror, success, value_file_name, value_file_extension, safe_userspace_dir,
  sync_records, sync_spaces, sync_userspace_files, write_database, persist, dir_files,
}
use httpkvdb.Storage.Store.{Store, save, get, put}
use httpkvdb.Storage.Records.{same_place, get_from-put_into}

-- The file system refuses names of more than 255 bytes (NAME_MAX).
abbrev pub LimitsNames : {Doc : Type 0} → Io Doc → Type 0
LimitsNames io = (dir name : Bytes) → 255 < length name → io.write_file dir name ≢ success

base64-length :
    (digit : ℕ → ℕ) (pad : ℕ → Bytes) (b : Bytes) → length b ≤ length (base64 digit pad b)
unfolding base64
base64-length digit pad [] = omega arith
base64-length digit pad (a ∷ []) = omega arith
base64-length digit pad (a ∷ b ∷ []) = omega arith
base64-length digit pad (a ∷ b ∷ c ∷ r) = omega (arith, base64-length digit pad r)

raw_url-length : (b : Bytes) → length b ≤ length (base64_raw_url b)
unfolding base64_raw_url
raw_url-length b = base64-length (base64_digit b'-' b'_') (λ n. []) b

value_file_name-length :
    (key content_type : Bytes) → length key ≤ length (value_file_name key content_type)
unfolding value_file_name
value_file_name-length key content_type =
    let ext = value_file_extension content_type in
    ground (
      arith,
      raw_url-length key,
      length-append key ext,
      length-append (codes "k_" ++ base64_raw_url key) ext,
    )

sync_records-cases :
    {Doc : Type 0} (io : Io Doc) (dir : Bytes) (records : Space) (files : Files)
    → ((sync_records io dir records files).0 ≡ ok tt)
      ⊎ ((sync_records io dir records files).0 ≡ err io_error)
unfolding sync_records
sync_records-cases io dir [] files = inl refl
sync_records-cases io dir ((k, r) ∷ records) files =
    let name = value_file_name k r.content_type in
    ground (arith, sync_records-cases io dir records (insert files name r.value))

get_from-found :
    (d : Snapshot) (u key : Bytes) (rec : KvRecord)
    → get_from d u key ≡ ok rec
    → (space : Space) × (lookup d.userspaces u ≡ some space) × (lookup space key ≡ some rec)
unfolding get_from
get_from-found d u key rec h = ground arith

module _ {Doc : Type 0} (io : Io Doc) (limits : LimitsNames io) (key : Bytes) (rec : KvRecord)
    (long : 255 < length key) where
  sync_records_long :
      (dir : Bytes) (records : Space) (files : Files)
      → lookup records key ≡ some rec
      → (sync_records io dir records files).0 ≡ err io_error
  unfolding sync_records lookup
  sync_records_long dir [] files h = cc
  sync_records_long dir ((k, r) ∷ records) files h =
      let name = value_file_name k r.content_type in
      ground (
        arith,
        bytes_eq_iff k key,
        value_file_name-length k r.content_type,
        limits dir name,
        sync_records_long dir records (insert files name r.value),
      )

  sync_spaces_long :
      (u : Bytes) (space : Space) (spaces : Dict Bytes Space) (mirror : Mirror)
      → lookup spaces u ≡ some space
      → lookup space key ≡ some rec
      → (sync_spaces io spaces mirror).0 ≡ err io_error
  unfolding sync_spaces lookup
  sync_spaces_long u space [] mirror h k = cc
  sync_spaces_long u space ((u', records) ∷ rest) mirror h k =
      let dir = safe_userspace_dir u' in
      let files = dir_files (lookup mirror dir) in
      let written = sync_records io dir records files in
      ground (
        arith,
        bytes_eq_iff u' u,
        sync_records-cases io dir records files,
        sync_records_long dir records files,
        sync_spaces_long u space rest (insert mirror dir written.1),
      )

  sync_userspace_files_long :
      (d : Snapshot) (u : Bytes)
      → get_from d u key ≡ ok rec
      → (sync_userspace_files io d).0 ≡ err io_error
  unfolding sync_userspace_files
  sync_userspace_files_long d u h =
      let (space, at_u, at_key) = get_from-found d u key rec h in
      ground (arith, sync_spaces_long u space d.userspaces [] at_u at_key)

write_database-cases :
    {Doc : Type 0} (io : Io Doc) (b : Doc) (disk : Disk Doc)
    → ((write_database io b disk).0 ≡ ok tt) ⊎ ((write_database io b disk).0 ≡ err io_error)
unfolding write_database
write_database-cases io b disk = ground arith

module _ {Doc : Type 0} (env : Env Doc) (limits : LimitsNames env.io) where
  save_long :
      (s : Store Doc) (d : Snapshot) (u key : Bytes) (rec : KvRecord)
      → 255 < length key
      → get_from d u key ≡ ok rec
      → (save env s d).0 ≡ err io_error
  unfolding save persist
  save_long s d u key rec long h = elim (Option-cases (env.json.marshal d)) [
    | inl n ↦ rw (n, save, persist)
    | inr (b, m) ↦ ground (
      arith,
      sync_userspace_files_long env.io limits key rec long d u h,
      write_database-cases env.io b s.disk,
    )
  ]

  -- Where the file system refuses names of more than 255 bytes, one stored key of more than 255
  -- bytes makes every later PUT, of any key in any userspace, report a storage error.
  pub put_blocked :
      (s : Store Doc) (u key : Bytes) (rec : KvRecord)
      → 255 < length key
      → get s u key ≡ ok rec
      → (u' key' value content_type : Bytes)
      → (put env s u' key' value content_type).0 ≡ err io_error
  unfolding put
  put_blocked s u key rec long h u' key' value content_type =
      let (rec', kept) = still_there in ground (arith, save_long s d u key rec' long kept)
    where
      d : Snapshot
      d = (put_into env.std env.now s.contents u' key' value content_type).1

      still_there : (rec' : KvRecord) × (get_from d u key ≡ ok rec')
      still_there = elim (Bool-cases (same_place u' key' u key)) [
        | inl same ↦ (
          (put_into env.std env.now s.contents u' key' value content_type).0,
          get_from-put_into env.std env.now s.contents u' key' value content_type u key ∙ rw same,
        )
        | inr other ↦ (
          rec,
          get_from-put_into env.std env.now s.contents u' key' value content_type u key
              ∙ rw other (unfold get in h),
        )
      ]
