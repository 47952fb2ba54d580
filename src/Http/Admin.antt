-- ===== src/Http/Admin.antt =====
-- admin_handlers.go of internal/httpapi: userspaces and their keys, for the role admin.
use httpkvdb.Base.{
  ◌≡◌, refl, ◌^◌, Bool, true, false, not, ◌&&◌, Option, none, some, [], if◌then◌else◌,
}
use httpkvdb.Base.Int.{pos}
use httpkvdb.Base.Bytes.{Bytes, codes, bytes_eq, is_empty}
use httpkvdb.Golang.Encoding.{base64_raw_url}
use httpkvdb.Golang.Text.{cut, has_prefix, trim_prefix}
use httpkvdb.Golang.Stream.{limited}
use httpkvdb.Model.{Error, Principal, ok, err, not_found, already_exists}
use httpkvdb.Validate.{validate_userspace_id}
use httpkvdb.Storage.Store.{list_userspace_keys}
use httpkvdb.Storage.Accounts.{
  list_userspaces, create_userspace, delete_userspace, replace_userspace_api_key_hash,
}
use httpkvdb.Auth.Token.{api_key_hash}
use httpkvdb.Auth.Authenticator.{invalidate}
use httpkvdb.Http.Message.{
  Request, Response, userspace_created, userspaces, records, bare, write_json, write_error,
  storage_error, not_found_page, contains,
}
use httpkvdb.Http.Server.{Server, World, CreateUserspaceRequest}
use httpkvdb.Http.Kv.{
  handle_put, handle_get, handle_delete, key_of, dispatch_kv, handle_kv, invalid_key_error,
  userspace_of, invalid_userspace_error,
}

-- hasRole
abbrev pub has_role : Principal → Bytes → Bool
has_role p role = contains p.roles role

abbrev pub userspace_error : Bytes → Error → Response
userspace_error id not_found =
    write_error id 404 (codes "USERSPACE_NOT_FOUND") (codes "userspace not found")
userspace_error id _ = storage_error id

abbrev create_error : Bytes → Error → Response
create_error id already_exists =
    write_error id 409 (codes "USERSPACE_EXISTS") (codes "userspace already exists")
create_error id _ = storage_error id

module _ {Doc : Type 0} (w : World Doc) (id : Bytes) where
  -- newAPIKey
  abbrev pub new_api_key : Option Bytes
  new_api_key = elim w.random_key [ none ↦ none | some b ↦ some (base64_raw_url b) ]

  abbrev pub key_error : Response
  key_error = write_error id 500 (codes "STORAGE_ERROR") (codes "api key generation failed")

  unfoldable pub create_with_key : Server Doc → Bytes → Bytes → Bytes → Response × Server Doc
  create_with_key s u user_id api_key =
      let hash = api_key_hash w.tokens api_key s.auth.api_key_pepper in
      let (r, store) = create_userspace w.env s.store u user_id hash in
      let s' : Server Doc = record s { store = store } in
      elim r [
        | err e ↦ (create_error id e, s')
        | ok _ ↦ (
          write_json 201 (userspace_created user_id u api_key),
          record s' { auth = invalidate s.auth },
        )
      ]

  abbrev rejected : CreateUserspaceRequest → Bytes → Bool
  rejected req user_id = elim (validate_userspace_id req.userspace_id) [
    | err e ↦ true
    | ok _ ↦ is_empty user_id
  ]

  unfoldable pub handle_create_userspace : Server Doc → Request → Response × Server Doc
  handle_create_userspace s r = elim (w.userspace_request (limited (pos (2 ^ 20)) r.body)) [
    | none ↦ (write_error id 400 (codes "BAD_REQUEST") (codes "invalid json"), s)
    | some req ↦
        let user_id = if is_empty req.user_id then req.userspace_id else req.user_id in
        if rejected req user_id then (invalid_userspace_error w id, s) else elim new_api_key [
          | none ↦ (key_error, s)
          | some api_key ↦ create_with_key s req.userspace_id user_id api_key
        ]
  ]

  unfoldable pub handle_list_userspaces : Server Doc → Response × Server Doc
  handle_list_userspaces s = (write_json 200 (userspaces (list_userspaces s.store)), s)

  unfoldable pub handle_delete_userspace : Server Doc → Bytes → Response × Server Doc
  handle_delete_userspace s u =
      let (r, store) = delete_userspace w.env s.store u in
      let s' : Server Doc = record s { store = store } in
      elim r [
        | err e ↦ (userspace_error id e, s')
        | ok _ ↦ (bare 204, record s' { auth = invalidate s.auth })
      ]

  -- handleRotateUserspaceAPIKey behind newAPIKey
  unfoldable pub rotate_to : Server Doc → Bytes → Bytes → Response × Server Doc
  rotate_to s u api_key =
      let hash = api_key_hash w.tokens api_key s.auth.api_key_pepper in
      let ((p, r), store) = replace_userspace_api_key_hash w.env s.store u hash in
      let s' : Server Doc = record s { store = store } in
      elim r [
        | err e ↦ (userspace_error id e, s')
        | ok _ ↦ (
          write_json 200 (userspace_created p.user_id p.userspace_id api_key),
          record s' { auth = invalidate s.auth },
        )
      ]

  unfoldable pub handle_rotate : Server Doc → Bytes → Response × Server Doc
  handle_rotate s u = elim new_api_key [
    | none ↦ (key_error, s)
    | some api_key ↦ rotate_to s u api_key
  ]

  unfoldable pub handle_list_userspace_keys : Server Doc → Bytes → Response × Server Doc
  handle_list_userspace_keys s u = elim (list_userspace_keys s.store u) [
    | err e ↦ (userspace_error id e, s)
    | ok recs ↦ (write_json 200 (records recs), s)
  ]

  -- handleAdminKV, for any userspace
  unfoldable pub handle_admin_kv : Server Doc → Request → Bytes → Bytes → Response × Server Doc
  handle_admin_kv s r u raw_key = elim (key_of w id s raw_key) [
    | none ↦ (invalid_key_error w id, s)
    | some key ↦
        if bytes_eq r.method (codes "PUT")
        then handle_put w id s r u key
        else if bytes_eq r.method (codes "GET")
        then handle_get w id s u key false
        else if bytes_eq r.method (codes "HEAD")
        then handle_get w id s u key true
        else if bytes_eq r.method (codes "DELETE")
        then handle_delete w id s u key
        else (bare 405, s)
  ]

  -- It answers as handleKV does.
  pub handle_admin_kv_lem :
      (s : Server Doc) (r : Request) (u raw_key : Bytes)
      → handle_admin_kv s r u raw_key ≡ handle_kv w id s r u raw_key
  unfolding handle_admin_kv handle_kv dispatch_kv
  handle_admin_kv_lem s r u raw_key = refl

  -- The switch of handleAdminUserspace
  unfoldable pub admin_userspace : Server Doc → Request → Bytes → Bytes → Response × Server Doc
  admin_userspace s r u rest =
      if is_empty rest && bytes_eq r.method (codes "DELETE")
      then handle_delete_userspace s u
      else if bytes_eq rest (codes "api-key") && bytes_eq r.method (codes "POST")
      then handle_rotate s u
      else if bytes_eq rest (codes "keys") && bytes_eq r.method (codes "GET")
      then handle_list_userspace_keys s u
      else if has_prefix rest (codes "kv/")
      then handle_admin_kv s r u (trim_prefix rest (codes "kv/"))
      else (not_found_page, s)

  -- strings.Cut: all of the text and nothing, if there is no slash.
  abbrev pub cut_or_all : Bytes → Option (Bytes × Bytes) → Bytes × Bytes
  cut_or_all text none = (text, [])
  cut_or_all text (some parts) = parts

  unfoldable pub handle_admin_userspace : Server Doc → Request → Bytes → Response × Server Doc
  handle_admin_userspace s r raw_path =
      let (raw_userspace, rest) = cut_or_all raw_path (cut b'/' raw_path) in
      elim (userspace_of w id raw_userspace) [
        | none ↦ (invalid_userspace_error w id, s)
        | some u ↦ admin_userspace s r u rest
      ]

  unfoldable pub handle_admin : Server Doc → Request → Principal → Bytes → Response × Server Doc
  handle_admin s r p raw_path =
      if not (has_role p (codes "admin"))
      then (write_error id 403 (codes "FORBIDDEN") (codes "admin role required"), s)
      else if bytes_eq raw_path (codes "userspaces") && bytes_eq r.method (codes "GET")
      then handle_list_userspaces s
      else if bytes_eq raw_path (codes "userspaces") && bytes_eq r.method (codes "POST")
      then handle_create_userspace s r
      else if has_prefix raw_path (codes "userspaces/")
      then handle_admin_userspace s r (trim_prefix raw_path (codes "userspaces/"))
      else (not_found_page, s)
