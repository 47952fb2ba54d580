-- ===== src/Storage/Durable.antt =====
-- What the files hold after a save, whatever fails, and what a restart reads.
use httpkvdb.Base.{◌≡◌, sym, true, false, none, some, ◌⊎◌, inl, inr, ◌∙◌, Option-cases, arith}
use mathlib.Core.Path.{subst}
use httpkvdb.Model.{io_error, ok, err}
use httpkvdb.Storage.Snapshot.{Snapshot}
use httpkvdb.Storage.Disk.{Json, Disk, Io, Env, write_database, persist, load}
use httpkvdb.Storage.Store.{Store, save, open_store}

module _ {Doc : Type 0} (json : Json Doc) where
  -- The database file reads as `d`.
  pub record Holds (disk : Disk Doc) (d : Snapshot) : Type 0 where
    pub doc : Doc
    pub at : disk.file ≡ some doc
    pub reads : json.unmarshal doc ≡ some d
    pub not_blank : json.is_blank doc ≡ false

  -- JSON reads back what it writes for `d`.
  pub record Survives (d : Snapshot) : Type 0 where
    pub back : (b : Doc) → json.marshal d ≡ some b → json.unmarshal b ≡ some d
    pub written : (b : Doc) → json.marshal d ≡ some b → json.is_blank b ≡ false

  module _ (io : Io Doc) (d : Snapshot) (disk : Disk Doc) (b : Doc) where
    write_database-file :
        ((write_database io b disk).1.file ≡ disk.file)
        ⊎ ((write_database io b disk).1.file ≡ some b)
    unfolding write_database
    write_database-file = ground arith

    write_database_ok :
        (write_database io b disk).0 ≡ ok tt → (write_database io b disk).1.file ≡ some b
    unfolding write_database
    write_database_ok h = ground arith

    -- The value files are written behind the database file, and leave it alone.
    persist-file :
        json.marshal d ≡ some b
        → (persist json io d disk).1.file ≡ (write_database io b disk).1.file
    unfolding persist
    persist-file h = ground arith

    persist_ok :
        json.marshal d ≡ some b
        → (persist json io d disk).0 ≡ ok tt
        → (write_database io b disk).0 ≡ ok tt
    unfolding persist
    persist_ok h e = ground arith

  persist_unmarshalled :
      (io : Io Doc) (d : Snapshot) (disk : Disk Doc)
      → json.marshal d ≡ none
      → persist json io d disk ≡ (err io_error, disk)
  unfolding persist
  persist_unmarshalled io d disk h = rw (h, persist)

  -- A save that reports success has put `d` in the file, whatever was there.
  pub persist_ok-Holds :
      (io : Io Doc) (d : Snapshot) (disk : Disk Doc)
      → Survives d
      → (persist json io d disk).0 ≡ ok tt
      → Holds (persist json io d disk).1 d
  persist_ok-Holds io d disk x e = elim (Option-cases (json.marshal d)) [
    | inl n ↦ cc (persist_unmarshalled io d disk n)
    | inr (b, m) ↦ record {
      doc = b;
      at = persist-file io d disk b m ∙ write_database_ok io d disk b (persist_ok io d disk b m e);
      reads = x.back b m;
      not_blank = x.written b m;
    }
  ]

  -- Any save leaves the old data or the new in the file, never a part.
  pub persist-Holds :
      (io : Io Doc) (d old : Snapshot) (disk : Disk Doc)
      → Survives d
      → Holds disk old
      → Holds (persist json io d disk).1 old ⊎ Holds (persist json io d disk).1 d
  persist-Holds io d old disk x h = elim (Option-cases (json.marshal d)) [
    | inl n ↦ inl (rw (persist_unmarshalled io d disk n) h)
    | inr (b, m) ↦ elim (write_database-file io d disk b) [
      | inl same ↦ inl (record {
        doc = h.doc;
        at = persist-file io d disk b m ∙ same ∙ h.at;
        reads = h.reads;
        not_blank = h.not_blank;
      })
      | inr new ↦ inr (record {
        doc = b;
        at = persist-file io d disk b m ∙ new;
        reads = x.back b m;
        not_blank = x.written b m;
      })
    ]
  ]

-- A restart whose files can be read gets the data that the file holds.
load-Holds :
    {Doc : Type 0} (json : Json Doc) (io : Io Doc) (disk : Disk Doc) (d : Snapshot)
    → io.read_file ≡ true
    → Holds json disk d
    → load json io disk ≡ (ok d, disk)
unfolding load
load-Holds json io disk d r h = ground arith

-- The restart: the same libraries, and files that can be read.
pub record IsRestart {Doc : Type 0} (env env' : Env Doc) : Type 0 where
  pub same_json : env'.json ≡ env.json
  pub path_made : env'.io.mkdir_path ≡ true
  pub file_read : env'.io.read_file ≡ true

open_store-Holds :
    {Doc : Type 0} (env env' : Env Doc) (disk : Disk Doc) (d : Snapshot)
    → IsRestart env env'
    → Holds env.json disk d
    → (open_store env' disk).0 ≡ ok (record { contents = d; disk = disk })
unfolding open_store
open_store-Holds env env' disk d x h =
    let read : load env'.json env'.io disk ≡ (ok d, disk) =
      load-Holds env'.json env'.io disk d x.file_read
        (subst (λ j. Holds j disk d) (sym x.same_json) h) in
    ground (arith, x.path_made)

module _ {Doc : Type 0} (env env' : Env Doc) (s : Store Doc) (d : Snapshot) where
  -- A save that reports success survives a restart that can read the files: the store opened
  -- from the files is the store as it was in memory. The JSON text of the new data reads back as
  -- that data.
  pub reopen-save :
      IsRestart env env'
      → Survives env.json d
      → (save env s d).0 ≡ ok tt
      → (open_store env' (save env s d).1.disk).0 ≡ ok (save env s d).1
  unfolding save
  reopen-save x y e =
      open_store-Holds env env' (persist env.json env.io d s.disk).1 d x
        (persist_ok-Holds env.json env.io d s.disk y e)

  -- A save that stops at any file call leaves files from which a restart that can read them gets
  -- all of the old data or all of the new, never a mixture. The file held the old data before,
  -- and the JSON text of the new data reads back as that data.
  pub reopen-save_any :
      (old : Snapshot)
      → IsRestart env env'
      → Survives env.json d
      → Holds env.json s.disk old
      → ((open_store env' (save env s d).1.disk).0
          ≡ ok (record { contents = old; disk = (save env s d).1.disk }))
        ⊎ ((open_store env' (save env s d).1.disk).0
            ≡ ok (record { contents = d; disk = (save env s d).1.disk }))
  unfolding save
  reopen-save_any old x y h = elim (persist-Holds env.json env.io d old s.disk y h) [
    | inl before ↦ inl (open_store-Holds env env' (persist env.json env.io d s.disk).1 old x before)
    | inr after ↦ inr (open_store-Holds env env' (persist env.json env.io d s.disk).1 d x after)
  ]
