-- ===== src/Http/Kv.antt =====
-- kv_handlers.go of internal/httpapi: one key of a userspace.
use httpkvdb.Base.{
  ℕ, Bool, true, false, ◌||◌, Option, none, some, List, [], ◌∷◌, length, if◌then◌else◌,
}
use httpkvdb.Base.Int.{pos}
use httpkvdb.Base.Bytes.{Bytes, codes, bytes_eq, is_empty}
use httpkvdb.Golang.Text.{cut}
use httpkvdb.Golang.Url.{path_unescape}
use httpkvdb.Golang.Stream.{limited, read_all}
use httpkvdb.Model.{KvRecord, Principal, Error, ok, err, not_found}
use httpkvdb.Validate.{validate_key, validate_userspace_id, validate_value}
use httpkvdb.Storage.Store
use httpkvdb.Golang.Strconv.{decimal, format_uint}
use httpkvdb.Http.Message.{
  Request, Response, no_body, plain, bare, write_error, storage_error, not_found_page,
}
use httpkvdb.Http.Server.{Server, World, add_one}

abbrev pub key_not_found : Bytes → Response
key_not_found id = write_error id 404 (codes "KEY_NOT_FOUND") (codes "key not found")

-- The answer of handleGet and handleDelete to an error of the store.
abbrev pub kv_error : Bytes → Error → Response
kv_error id not_found = key_not_found id
kv_error id _ = storage_error id

-- The content type of a body that names none.
abbrev pub content_type_of : Bytes → Bytes
content_type_of ct = if is_empty ct then codes "application/octet-stream" else ct

abbrev pub record_headers : KvRecord → List (Bytes × Bytes)
record_headers rec =
    (codes "Content-Type", rec.content_type)
    ∷ (codes "X-KV-Version", format_uint rec.version)
    ∷ (codes "X-KV-Size", decimal (pos (length rec.value)))
    ∷ (codes "X-KV-Checksum", rec.checksum)
    ∷ []

abbrev pub record_response : Bool → KvRecord → Response
record_response head rec = record {
  status = 200;
  headers = record_headers rec;
  body = if head then no_body else plain rec.value;
}

abbrev pub version_response : ℕ → Response
version_response version = record {
  status = 200;
  headers = (codes "X-KV-Version", format_uint version) ∷ [];
  body = no_body;
}

module _ {Doc : Type 0} (w : World Doc) (id : Bytes) where
  -- handlePut behind its checks
  unfoldable pub store_put : Server Doc → Bytes → Bytes → Bytes → Bytes → Response × Server Doc
  store_put s u key body ct =
      let (r, store) = Store.put w.env s.store u key body ct in
      let s' : Server Doc = record s { store = store } in
      let m = s.metrics in
      elim r [
        | err e ↦ (storage_error id, s')
        | ok version ↦ (
          version_response version,
          record s' { metrics = record m { kv_put = add_one m.kv_put } },
        )
      ]

  -- readBody, where nothing stands for the answer that the value is too large
  abbrev read_body : Server Doc → Request → Option Bytes
  read_body s r = read_all (limited s.cfg.max_value_size r.body)

  unfoldable pub handle_put : Server Doc → Request → Bytes → Bytes → Response × Server Doc
  handle_put s r u key = elim (read_body s r) [
    | none ↦ (write_error id 413 (codes "VALUE_TOO_LARGE") (codes "value too large"), s)
    | some body ↦
        let ct = content_type_of (r.header (codes "Content-Type")) in
        elim (validate_value w.env.std ct body) [
          | err e ↦ (write_error id 422 (codes "INVALID_JSON") (codes "invalid json"), s)
          | ok _ ↦ store_put s u key body ct
        ]
  ]

  unfoldable pub handle_get : Server Doc → Bytes → Bytes → Bool → Response × Server Doc
  handle_get s u key head =
      let m = s.metrics in
      elim (Store.get s.store u key) [
        | err e ↦ (kv_error id e, s)
        | ok rec ↦ (
          record_response head rec,
          record s { metrics = record m { kv_get = add_one m.kv_get } },
        )
      ]

  unfoldable pub handle_delete : Server Doc → Bytes → Bytes → Response × Server Doc
  handle_delete s u key =
      let (r, store) = Store.delete w.env s.store u key in
      let s' : Server Doc = record s { store = store } in
      let m = s.metrics in
      elim r [
        | err e ↦ (kv_error id e, s')
        | ok version ↦
            (bare 204, record s' { metrics = record m { kv_delete = add_one m.kv_delete } })
      ]

  -- The switch on the method, of handleKV.
  unfoldable pub dispatch_kv : Server Doc → Request → Bytes → Bytes → Response × Server Doc
  dispatch_kv s r u key =
      if bytes_eq r.method (codes "PUT")
      then handle_put s r u key
      else if bytes_eq r.method (codes "GET")
      then handle_get s u key false
      else if bytes_eq r.method (codes "HEAD")
      then handle_get s u key true
      else if bytes_eq r.method (codes "DELETE")
      then handle_delete s u key
      else (bare 405, s)

  -- url.PathUnescape and storage.ValidateKey on a raw key
  unfoldable pub key_of : Server Doc → Bytes → Option Bytes
  key_of s raw_key = elim (path_unescape raw_key) [
    | none ↦ none
    | some key ↦ elim (validate_key key s.cfg.max_key_size) [ err e ↦ none | ok _ ↦ some key ]
  ]

  abbrev pub invalid_key_error : Response
  invalid_key_error = write_error id 400 (codes "INVALID_KEY") (codes "invalid key")

  -- handleKV for the caller's userspace
  unfoldable pub handle_kv : Server Doc → Request → Bytes → Bytes → Response × Server Doc
  handle_kv s r u raw_key = elim (key_of s raw_key) [
    | none ↦ (invalid_key_error, s)
    | some key ↦ dispatch_kv s r u key
  ]

  abbrev pub invalid_userspace_error : Response
  invalid_userspace_error =
      write_error id 400 (codes "INVALID_USERSPACE") (codes "invalid userspace")

  -- url.PathUnescape and storage.ValidateUserspaceID on a raw identifier
  unfoldable pub userspace_of : Bytes → Option Bytes
  userspace_of raw = elim (path_unescape raw) [
    | none ↦ none
    | some u ↦ elim (validate_userspace_id u) [ err e ↦ none | ok _ ↦ some u ]
  ]

  -- handleUserspaceKV behind the cut of the path
  unfoldable pub handle_named_kv :
      Server Doc → Request → Principal → Bytes → Bytes → Response × Server Doc
  handle_named_kv s r p raw_userspace raw_key = elim (userspace_of raw_userspace) [
    | none ↦ (invalid_userspace_error, s)
    | some u ↦
        if bytes_eq p.userspace_id u
        then handle_kv s r p.userspace_id raw_key
        else (write_error id 403 (codes "FORBIDDEN") (codes "userspace forbidden"), s)
  ]

  unfoldable pub handle_userspace_kv :
      Server Doc → Request → Principal → Bytes → Response × Server Doc
  handle_userspace_kv s r p raw_path = elim (cut b'/' raw_path) [
    | none ↦ (not_found_page, s)
    | some (raw_userspace, raw_key) ↦
        if is_empty raw_userspace || is_empty raw_key
        then (not_found_page, s)
        else handle_named_kv s r p raw_userspace raw_key
  ]
