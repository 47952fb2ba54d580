-- ===== src/Http/Router.antt =====
-- Server.Handler and Server.v1 of internal/httpapi/router.go, auth.Middleware, observe.RequestID,
-- corsMiddleware. The mux of net/http is a parameter: what it matches to no handler of the program.
use httpkvdb.Base.{Bool, not, ◌&&◌, [], ◌∷◌, ◌++◌, if◌then◌else◌}
use httpkvdb.Base.Bytes.{Bytes, codes, bytes_eq, is_empty}
use httpkvdb.Golang.Encoding.{hex}
use httpkvdb.Golang.Text.{has_prefix, trim_prefix, split}
use httpkvdb.Model.{Principal, ok, err}
use httpkvdb.Auth.Authenticator.{authenticate_request}
use httpkvdb.Http.Message.{
  Request, Response, plain, bare, not_found_page, write_error, write_auth_error, with_headers,
  cors_headers,
}
use httpkvdb.Http.Server.{Server, World, add_one, metrics_page}
use httpkvdb.Http.Kv.{handle_kv, handle_userspace_kv}
use httpkvdb.Http.Admin.{handle_admin}
use httpkvdb.Http.Transactions.{handle_create_tx, handle_tx}
use httpkvdb.Http.Transfer.{handle_export, handle_import}

-- What the mux matches a request to.
pub data Route : Type 0 where
  healthz_route readyz_route metrics_route protected unmatched : Route

abbrev ok_page : Response
ok_page = record { status = 200; headers = []; body = plain (codes "ok" ++ 10 ∷ []) }

-- Store.Ready, on the path that the store was opened with
abbrev ready : Bytes → Bool
ready path = not (is_empty path)

abbrev readyz : Bytes → Bytes → Response
readyz id path =
    if ready path
    then ok_page
    else write_error id 503 (codes "STORAGE_ERROR") (codes "storage unavailable")

-- The path behind its prefix
unfoldable pub api_path : Bytes → Bytes
api_path path =
    if has_prefix path (codes "/api/v1/")
    then trim_prefix path (codes "/api/v1")
    else trim_prefix path (codes "/v1")

module _ {Doc : Type 0} (w : World Doc) (id : Bytes) where
  -- v1, for the principal that the middleware found
  unfoldable pub handle_v1 : Server Doc → Request → Principal → Response × Server Doc
  handle_v1 s r p =
      let path = api_path r.path in
      if has_prefix path (codes "/kv/")
      then handle_kv w id s r p.userspace_id (trim_prefix path (codes "/kv/"))
      else if has_prefix r.path (codes "/v1/admin/")
      then handle_admin w id s r p (trim_prefix path (codes "/admin/"))
      else if bytes_eq path (codes "/tx") && bytes_eq r.method (codes "POST")
      then handle_create_tx w id s r p
      else if has_prefix path (codes "/tx/")
      then handle_tx w id s r p (split b'/' (trim_prefix path (codes "/tx/")))
      else if bytes_eq path (codes "/export") && bytes_eq r.method (codes "GET")
      then handle_export w id s p
      else if bytes_eq path (codes "/import") && bytes_eq r.method (codes "POST")
      then handle_import w id s r p
      else if has_prefix r.path (codes "/api/v1/")
      then handle_userspace_kv w id s r p (trim_prefix path (codes "/"))
      else (not_found_page, s)

  -- Middleware around v1
  unfoldable pub protected_v1 : Server Doc → Request → Response × Server Doc
  protected_v1 s r =
      let (who, auth) = authenticate_request w.tokens w.env.now s.store s.auth r.header in
      let s' : Server Doc = record s { auth = auth } in
      elim who [ err e ↦ (write_auth_error id, s') | ok p ↦ handle_v1 s' r p ]

module _ {Doc : Type 0} (w : World Doc) (route : Request → Route)
    (mux_answer : Request → Response) where
  unfoldable pub serve_route : Bytes → Server Doc → Request → Route → Response × Server Doc
  serve_route id s r healthz_route = (ok_page, s)
  serve_route id s r readyz_route = (readyz id s.cfg.storage_path, s)
  serve_route id s r metrics_route = (metrics_page s.metrics, s)
  serve_route id s r protected = protected_v1 w id s r
  serve_route id s r unmatched = (mux_answer r, s)

  -- observe.RequestID
  abbrev pub request_id : Request → Bytes
  request_id r =
      let id = r.header (codes "X-Request-Id") in
      if is_empty id then codes "req_" ++ hex w.random_request else id

  -- The handler below corsMiddleware
  unfoldable pub counted : Server Doc → Request → Response × Server Doc
  counted s r =
      let id = request_id r in
      let m = s.metrics in
      let s' : Server Doc = record s { metrics = record m { requests = add_one m.requests } } in
      let (resp, s'') = serve_route id s' r (route r) in
      (with_headers ((codes "X-Request-Id", id) ∷ []) resp, s'')

  -- Handler
  unfoldable pub handler : Server Doc → Request → Response × Server Doc
  handler s r =
      let headers = cors_headers s.cfg.cors_allowed_origins (r.header (codes "Origin")) in
      if bytes_eq r.method (codes "OPTIONS")
      then (with_headers headers (bare 204), s)
      else (let (resp, s') = counted s r in (with_headers headers resp, s'))
