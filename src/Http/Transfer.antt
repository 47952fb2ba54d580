-- ===== src/Http/Transfer.antt =====
-- import_export_handlers.go of internal/httpapi.
use httpkvdb.Base.{Option, none, some, List, [], ◌∷◌, if◌then◌else◌}
use httpkvdb.Base.Bytes.{Bytes, codes, bytes_eq, is_empty}
use httpkvdb.Golang.Stream.{limited, read_all}
use httpkvdb.Model.{
  KvRecord, Principal, ImportMode, replace, merge_overwrite, merge_skip, Error, invalid_json, ok,
  err,
}
use httpkvdb.Storage.Store.{export_userspace}
use httpkvdb.Storage.Atomic.{import_store}
use httpkvdb.Codec.Encode.{encode}
use httpkvdb.Codec.Decode.{decode}
use httpkvdb.Http.Message.{
  Request, Response, plain, import_result, write_json, write_error, storage_error,
}
use httpkvdb.Http.Server.{Server, World, add_one}

abbrev pub export_response : Bytes → Response
export_response body = record {
  status = 200;
  headers =
      (codes "Content-Type", codes "application/octet-stream")
      ∷ (codes "Content-Disposition", codes "attachment; filename=\"kv-export.bin\"")
      ∷ [];
  body = plain body;
}

-- The header X-KV-Import-Mode
unfoldable pub mode_of : Bytes → Option ImportMode
mode_of text =
    if is_empty text
    then some replace
    else if bytes_eq text (codes "replace")
    then some replace
    else if bytes_eq text (codes "merge-overwrite")
    then some merge_overwrite
    else if bytes_eq text (codes "merge-skip")
    then some merge_skip
    else none

module _ {Doc : Type 0} (w : World Doc) (id : Bytes) where
  -- handleExport; Encode writes to memory and does not fail.
  unfoldable pub handle_export : Server Doc → Principal → Response × Server Doc
  handle_export s p =
      let m = s.metrics in
      (
        export_response (encode w.env.std w.env.now (export_userspace s.store p.userspace_id)),
        record s { metrics = record m { exports = add_one m.exports } },
      )

  abbrev pub decode_error : Error → Response
  decode_error invalid_json = write_error id 422 (codes "INVALID_JSON") (codes "invalid json")
  decode_error _ = write_error id 400 (codes "BAD_REQUEST") (codes "invalid import")

  -- handleImport behind its checks
  unfoldable pub import_records_of :
      Server Doc → Principal → ImportMode → List KvRecord → Response × Server Doc
  import_records_of s p mode records =
      let (r, store) = import_store w.env s.store p.userspace_id records mode in
      let s' : Server Doc = record s { store = store } in
      let m = s.metrics in
      elim r [
        | err e ↦ (storage_error id, s')
        | ok res ↦ (
          write_json 200 (import_result res),
          record s' { metrics = record m { imports = add_one m.imports } },
        )
      ]

  unfoldable pub handle_import : Server Doc → Request → Principal → Response × Server Doc
  handle_import s r p = elim (mode_of (r.header (codes "X-KV-Import-Mode"))) [
    | none ↦ (write_error id 400 (codes "BAD_REQUEST") (codes "invalid import mode"), s)
    | some mode ↦ elim (read_all (limited s.cfg.max_value_size r.body)) [
      | none ↦ (write_error id 413 (codes "VALUE_TOO_LARGE") (codes "import too large"), s)
      | some input ↦ elim (decode w.env.std s.cfg.max_key_size s.cfg.max_value_size input) [
        | err e ↦ (decode_error e, s)
        | ok records ↦ import_records_of s p mode records
      ]
    ]
  ]
