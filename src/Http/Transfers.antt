-- ===== src/Http/Transfers.antt =====
-- Export from one server and import into another: what the keys hold afterwards.
use httpkvdb.Base.{
  ℕ, ◌<◌, ◌^◌, ◌≡◌, refl, sym, ◌∙◌, ap, Bool, none, some, List, [], ◌∷◌, length, All, map, arith,
  if◌then◌else◌,
}
use httpkvdb.Base.Bytes.{Bytes, bytes_eq, bytes_eq_iff, bytes_key, codes}
use httpkvdb.Base.Int.{pos}
use httpkvdb.Base.Dict.{IsMap, lookup, lookup-Fresh}
use httpkvdb.Golang.Crypto.{Std}
use httpkvdb.Golang.Sort.{insert_sorted, sort}
use httpkvdb.Golang.Stream.{limited, read_all}
use httpkvdb.Model.{KvRecord, Principal, replace, ok}
use httpkvdb.Storage.Snapshot.{Space, space_of}
use httpkvdb.Storage.Store.{Store, export_userspace}
use httpkvdb.Storage.Atomic.{clone_snapshot, import_store}
use httpkvdb.Storage.Import.{
  content, content_at, content_at-lookup, content_at-import_store, last_of, or_else,
}
use httpkvdb.Codec.Decode.{decode}
use httpkvdb.Codec.RoundTrip.{IsExportable, exported, decode-encode}
use httpkvdb.Http.Message.{Request, plain}
use httpkvdb.Http.Server.{Server, World}
use httpkvdb.Http.Transfer.{mode_of, import_records_of, handle_export, handle_import}

-- Every record stands under its key, and under no other.
pub record IsTidy (space : Space) : Type 0 where
  pub once : IsMap space
  pub keyed : All (λ entry. entry.1.key ≡ entry.0) space

-- No two records have the same key.
abbrev IsDistinct : List KvRecord → Type 0
IsDistinct [] = Unit {0}
IsDistinct (rec ∷ records) = (last_of rec.key records ≡ none) × IsDistinct records

last_of-insert_sorted :
    (lt : KvRecord → KvRecord → Bool) (a : KvRecord) (records : List KvRecord) (key : Bytes)
    → last_of a.key records ≡ none
    → last_of key (insert_sorted lt a records) ≡ last_of key (a ∷ records)
unfolding last_of insert_sorted
last_of-insert_sorted lt a [] key h = refl
last_of-insert_sorted lt a (b ∷ records) key h = ground (
  arith,
  last_of-insert_sorted lt a records key,
  bytes_eq_iff a.key key,
  bytes_eq_iff b.key key,
  bytes_eq_iff b.key a.key,
)

last_of-sort :
    (lt : KvRecord → KvRecord → Bool) (records : List KvRecord) (key : Bytes)
    → IsDistinct records
    → last_of key (sort lt records) ≡ last_of key records
unfolding sort last_of
last_of-sort lt [] key h = refl
last_of-sort lt (rec ∷ records) key h =
    last_of-insert_sorted lt rec (sort lt records) key (last_of-sort lt records rec.key h.1 ∙ h.0)
    ∙ ap
        (λ x. or_else x (if bytes_eq rec.key key then some (rec.value, rec.content_type) else none))
        (last_of-sort lt records key h.1)

last_of-exported :
    (std : Std) (key : Bytes) (records : List KvRecord)
    → last_of key (map (exported std) records) ≡ last_of key records
unfolding last_of exported
last_of-exported std key [] = refl
last_of-exported std key (rec ∷ records) =
    ap (λ x. or_else x (if bytes_eq rec.key key then some (rec.value, rec.content_type) else none))
      (last_of-exported std key records)

last_of-values :
    (space : Space) (key : Bytes)
    → IsMap space
    → All (λ entry. entry.1.key ≡ entry.0) space
    → last_of key (map (λ entry. entry.1) space) ≡ content (lookup space key)
unfolding last_of lookup
last_of-values [] key once keyed = refl
last_of-values ((k, rec) ∷ space) key once keyed = ground (
  arith,
  last_of-values space key once.1 keyed.1,
  lookup-Fresh k space once.0,
  keyed.0,
  bytes_eq_iff k key,
  bytes_eq_iff rec.key key,
)

values-IsDistinct :
    (space : Space)
    → IsMap space
    → All (λ entry. entry.1.key ≡ entry.0) space
    → IsDistinct (map (λ entry. entry.1) space)
values-IsDistinct [] once keyed = tt
values-IsDistinct ((k, rec) ∷ space) once keyed = (
  ap (λ x. last_of x (map (λ entry. entry.1) space)) keyed.0
      ∙ last_of-values space k once.1 keyed.1
      ∙ ap content (lookup-Fresh k space once.0),
  values-IsDistinct space once.1 keyed.1,
)

-- The file tells of a key what the store tells.
last_of-export_userspace :
    {Doc : Type 0} (s : Store Doc) (u key : Bytes)
    → IsTidy (space_of s.contents u)
    → last_of key (export_userspace s u) ≡ content_at s u key
unfolding export_userspace
last_of-export_userspace s u key tidy =
    last_of-sort _ _ key (values-IsDistinct _ tidy.once tidy.keyed)
    ∙ last_of-values _ key tidy.once tidy.keyed
    ∙ sym (content_at-lookup s u key)

plain_injective : (b b' : Bytes) → plain b ≡ plain b' → b ≡ b'
plain_injective b b' h = cc

module _ {Doc Doc' : Type 0} (w : World Doc) (w' : World Doc') (id id' : Bytes) (s : Server Doc)
    (s' : Server Doc') (p p' : Principal) where
  -- An import of a file that decodes leaves what import_store leaves.
  handle_import-store :
      (r : Request) (input : Bytes) (records : List KvRecord)
      → mode_of (r.header (codes "X-KV-Import-Mode")) ≡ some replace
      → read_all (limited s'.cfg.max_value_size r.body) ≡ some input
      → decode w'.env.std s'.cfg.max_key_size s'.cfg.max_value_size input ≡ ok records
      → (handle_import w' id' s' r p').1.store
        ≡ (import_store w'.env s'.store p'.userspace_id records replace).1
  unfolding handle_import import_records_of
  handle_import-store r input records mode body d = ground arith

  -- The body of an export, sent in whole as an import in the mode replace to a server whose
  -- limits the records are within, leaves every key of the importer's userspace with the value
  -- and the content type that the exporter had, or without any, also if the files fail. The
  -- exported userspace has one record for each key, under that key, and fewer than 2^64, the
  -- limits fit into the fields of the format, both sides have the same hash function, and the
  -- JSON copy of the importer's data reads back as that data.
  pub import_after_export :
      (r : Request) (input key : Bytes) (max_key max_value : ℕ)
      → max_key < 2 ^ 32
      → max_value < 2 ^ 63
      → w'.env.std ≡ w.env.std
      → s'.cfg.max_key_size ≡ pos max_key
      → s'.cfg.max_value_size ≡ pos max_value
      → IsTidy (space_of s.store.contents p.userspace_id)
      → length (export_userspace s.store p.userspace_id) < 2 ^ 64
      → All (IsExportable w.env.std max_key max_value) (export_userspace s.store p.userspace_id)
      → clone_snapshot w'.env.json s'.store.contents ≡ some s'.store.contents
      → (handle_export w id s p).0.body ≡ plain input
      → mode_of (r.header (codes "X-KV-Import-Mode")) ≡ some replace
      → read_all (limited s'.cfg.max_value_size r.body) ≡ some input
      → content_at (handle_import w' id' s' r p').1.store p'.userspace_id key
        ≡ content_at s.store p.userspace_id key
  unfolding handle_export
  import_after_export r input key max_key max_value k v std keys values tidy few xs copy sent mode
        body =
      let records = export_userspace s.store p.userspace_id in
      let read = handle_import-store r input (map (exported w.env.std) records) mode body decodes in
      ap (λ x. content_at x p'.userspace_id key) read
      ∙ content_at-import_store w'.env p'.userspace_id (map (exported w.env.std) records) replace
          s'.store p'.userspace_id key copy
      ∙ rw ((bytes_eq_iff p'.userspace_id p'.userspace_id).1 refl) refl
      ∙ last_of-exported w.env.std key records
      ∙ last_of-export_userspace s.store p.userspace_id key tidy
    where
      decodes :
          decode w'.env.std s'.cfg.max_key_size s'.cfg.max_value_size input
          ≡ ok (map (exported w.env.std) (export_userspace s.store p.userspace_id))
      decodes =
          rw (std, keys, values, sym (plain_injective _ _ sent))
            (decode-encode w.env.std max_key max_value k v w.env.now _ few xs)
