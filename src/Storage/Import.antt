-- ===== src/Storage/Import.antt =====
-- AtomicTx.ImportUserspace and Store.ImportUserspace: what each mode leaves, and the counts.
use httpkvdb.Base.{
  ◌+◌, ◌≤◌, ◌≡◌, refl, sym, ap, ◌∙◌, Option, none, some, List, [], ◌∷◌, length, if◌then◌else◌,
  arith, Bool-cases, Option-cases, inl, inr,
}
use httpkvdb.Base.Bytes.{Bytes, bytes_eq, bytes_eq_iff, bytes_key}
use httpkvdb.Base.Dict.{lookup, member, lookup-insert}
use httpkvdb.Golang.Crypto.{Std}
use httpkvdb.Model.{
  Time, KvRecord, ImportMode, replace, merge_overwrite, merge_skip, Result, ok, err,
}
use httpkvdb.Storage.Snapshot.{
  Snapshot, Space, space_of, Importing, is_skip, imported_record, import_record, import_records,
  import_into, start_space, next_version,
}
use httpkvdb.Storage.Records.{get_from-eq-found, space_of-insert}
use httpkvdb.Storage.Disk.{Env}
use httpkvdb.Storage.Store.{Store, get, save}
use httpkvdb.Storage.Atomic.{
  AtomicTx, clone_snapshot, begin_atomic, commit, import_userspace, import_store,
}

-- A value and its content type.
abbrev pub Content : Type 0
Content = Bytes × Bytes

abbrev pub content : Option KvRecord → Option Content
content none = none
content (some rec) = some (rec.value, rec.content_type)

-- What a read of a key tells of both.
abbrev read_content : Result KvRecord → Option Content
read_content (ok rec) = some (rec.value, rec.content_type)
read_content (err e) = none

abbrev pub content_at : {Doc : Type 0} → Store Doc → Bytes → Bytes → Option Content
content_at s u key = read_content (get s u key)

abbrev pub or_else : Option Content → Option Content → Option Content
or_else none other = other
or_else (some c) other = some c

-- The first and the last record of the file under a key.
unfoldable pub first_of : Bytes → List KvRecord → Option Content
first_of key [] = none
first_of key (rec ∷ records) =
    let rest = first_of key records in
    if bytes_eq rec.key key then some (rec.value, rec.content_type) else rest

unfoldable pub last_of : Bytes → List KvRecord → Option Content
last_of key [] = none
last_of key (rec ∷ records) =
    or_else (last_of key records)
      (if bytes_eq rec.key key then some (rec.value, rec.content_type) else none)

-- What a key holds after an import: `replace` keeps nothing of before, `merge_overwrite` prefers
-- the file and `merge_skip` what was there.
abbrev pub after_import : ImportMode → Option Content → Bytes → List KvRecord → Option Content
after_import replace before key records = last_of key records
after_import merge_overwrite before key records = or_else (last_of key records) before
after_import merge_skip before key records = or_else before (first_of key records)

pub content_at-lookup :
    {Doc : Type 0} (s : Store Doc) (u key : Bytes)
    → content_at s u key ≡ content (lookup (space_of s.contents u) key)
unfolding get
content_at-lookup s u key =
    rw get_from-eq-found (elim (Option-cases (lookup (space_of s.contents u) key)) [
      | inl h ↦ rw h refl
      | inr (rec, h) ↦ rw h refl
    ])

or_else-none : (o : Option Content) → or_else o none ≡ o
or_else-none none = refl
or_else-none (some c) = refl

module _ (std : Std) (now : Time) (u : Bytes) (mode : ImportMode) where
  -- One round, at one key.
  import_record-content :
      (s : Importing) (rec : KvRecord) (key : Bytes)
      → content (lookup (import_record std now u mode s rec).space key) ≡ (
          if is_skip mode
          then or_else
              (content (lookup s.space key))
              (if bytes_eq rec.key key then some (rec.value, rec.content_type) else none)
          else or_else
              (if bytes_eq rec.key key then some (rec.value, rec.content_type) else none)
              (content (lookup s.space key)))
  unfolding import_record member imported_record
  import_record-content s rec key = ground (
    arith,
    lookup-insert s.space rec.key (imported_record std now u mode (next_version s.version) rec) key,
    bytes_eq_iff rec.key key,
  )

  import_records-content :
      (s : Importing) (records : List KvRecord) (key : Bytes)
      → content (lookup (import_records std now u mode s records).space key) ≡ (
          if is_skip mode
          then or_else (content (lookup s.space key)) (first_of key records)
          else or_else (last_of key records) (content (lookup s.space key)))
  unfolding import_records first_of last_of
  import_records-content s [] key = ground (arith, or_else-none (content (lookup s.space key)))
  import_records-content s (rec ∷ records) key =
      import_records-content (import_record std now u mode s rec) records key
      ∙ rw (import_record-content s rec key) (ground (arith))

  import_record-counts :
      (s : Importing) (rec : KvRecord)
      → s.result.replaced ≤ s.result.imported
      → ((import_record std now u mode s rec).result.imported
            + (import_record std now u mode s rec).result.skipped
          ≡ s.result.imported + s.result.skipped + 1)
        × ((import_record std now u mode s rec).result.replaced
            ≤ (import_record std now u mode s rec).result.imported)
  unfolding import_record
  import_record-counts s rec h = ground arith

  import_records-counts :
      (s : Importing) (records : List KvRecord)
      → s.result.replaced ≤ s.result.imported
      → ((import_records std now u mode s records).result.imported
            + (import_records std now u mode s records).result.skipped
          ≡ s.result.imported + s.result.skipped + length records)
        × ((import_records std now u mode s records).result.replaced
            ≤ (import_records std now u mode s records).result.imported)
  unfolding import_records
  import_records-counts s [] h = (omega arith, h)
  import_records-counts s (rec ∷ records) h =
      let (total, order) = import_record-counts s rec h in
      let (total', order') =
        import_records-counts (import_record std now u mode s rec) records order in
      (omega arith, order')

  start_space-content :
      (m : ImportMode) (space : Space) (key : Bytes) (records : List KvRecord)
      → (if is_skip m
          then or_else
              (content (lookup (start_space std now u mode m space) key))
              (first_of key records)
          else or_else
              (last_of key records)
              (content (lookup (start_space std now u mode m space) key)))
        ≡ after_import m (content (lookup space key)) key records
  unfolding lookup
  start_space-content replace space key records = or_else-none (last_of key records)
  start_space-content merge_overwrite space key records = refl
  start_space-content merge_skip space key records = refl

  import_into-content :
      (d : Snapshot) (records : List KvRecord) (u' key : Bytes)
      → content (lookup (space_of (import_into std now u mode d records).1 u') key) ≡ (
          if bytes_eq u u'
          then after_import mode (content (lookup (space_of d u) key)) key records
          else content (lookup (space_of d u') key))
  unfolding import_into
  import_into-content d records u' key = rw space_of-insert (elim (Bool-cases (bytes_eq u u')) [
    | inl h ↦
        rw h (
          import_records-content _ records key
          ∙ start_space-content mode (space_of d u) key records)
    | inr h ↦ rw h refl
  ])

module _ {Doc : Type 0} (env : Env Doc) (u : Bytes) (records : List KvRecord)
    (mode : ImportMode) where
  -- The counts of an import add up: every record of the file is imported or skipped, and no more
  -- are replaced than imported.
  pub import_userspace_counts :
      (atx : AtomicTx)
      → (let r = (import_userspace env atx u records mode).0 in
          (r.imported + r.skipped ≡ length records) × (r.replaced ≤ r.imported))
  unfolding import_userspace import_into
  import_userspace_counts atx =
      let (total, order) =
        import_records-counts env.std env.now u mode
          (record {
            version = atx.contents.version;
            space = start_space env.std env.now u mode mode (space_of atx.contents u);
            result = record { imported = 0; skipped = 0; replaced = 0 };
          })
          records (omega arith) in
      (omega arith, order)

  import_store_open :
      (s : Store Doc)
      → clone_snapshot env.json s.contents ≡ some s.contents
      → (import_store env s u records mode).1.contents
        ≡ (import_into env.std env.now u mode s.contents records).1
  unfolding import_store begin_atomic import_userspace commit save
  import_store_open s c = rw (c, import_store, begin_atomic) refl

  -- Where the JSON copy reads back as the data, an import leaves every key of the userspace with
  -- what its mode says, also if the files fail: replacing, the last record of the file under the
  -- key or nothing; overwriting, the last record of the file or else what was there; skipping,
  -- what was there or else the first record of the file. All other userspaces read as before.
  pub content_at-import_store :
      (s : Store Doc) (u' key : Bytes)
      → clone_snapshot env.json s.contents ≡ some s.contents
      → content_at (import_store env s u records mode).1 u' key ≡ (
          if bytes_eq u u'
          then after_import mode (content_at s u key) key records
          else content_at s u' key)
  content_at-import_store s u' key c =
      let s' = (import_store env s u records mode).1 in
      content_at-lookup s' u' key
      ∙ ap (λ x. content (lookup (space_of x u') key)) (import_store_open s c)
      ∙ import_into-content env.std env.now u mode s.contents records u' key
      ∙ ap
          (λ x.
            if bytes_eq u u'
            then after_import mode x key records
            else content (lookup (space_of s.contents u') key))
          (sym (content_at-lookup s u key))
      ∙ ap (λ x. if bytes_eq u u' then after_import mode (content_at s u key) key records else x)
          (sym (content_at-lookup s u' key))
