-- ===== src/Http/Message.antt =====
-- Requests and responses; errors.go and cors.go of internal/httpapi.
use httpkvdb.Base.{ℕ, Bool, true, false, Option, none, some, List, [], ◌∷◌, ◌++◌, if◌then◌else◌}
use httpkvdb.Base.Int.{ℤ}
use httpkvdb.Base.Bytes.{Bytes, codes, bytes_eq, is_empty}
use httpkvdb.Golang.Text.{trim_space, split}
use httpkvdb.Golang.Stream.{Stream}
use httpkvdb.Model.{Time, TxStatus, TxResult, ImportResult, KvRecord}
use httpkvdb.Storage.Accounts.{UserspaceInfo}
use httpkvdb.Tx.Coordinator.{Status}

-- `path` is r.URL.Path, which net/http has unescaped once. `header` is r.Header.Get.
pub record Request : Type 0 where
  pub method : Bytes
  pub path : Bytes
  pub header : Bytes → Bytes
  pub content_length : ℤ
  pub body : Stream

-- What a handler writes. The JSON bodies are the values that are encoded.
pub data Body : Type 0 where
  no_body : Body
  plain : Bytes → Body
  error_body : (code message request_id : Bytes) → Body
  userspace_created : (user_id userspace_id api_key : Bytes) → Body
  userspaces : List UserspaceInfo → Body
  records : List KvRecord → Body
  tx_created : (tx_id : Bytes) → TxStatus → ℤ → Time → Body
  tx_aborted : (tx_id : Bytes) → TxStatus → Body
  tx_status : Status → Body
  tx_result : Option TxResult → Body
  import_result : ImportResult → Body

pub record Response : Type 0 where
  pub status : ℕ
  pub headers : List (Bytes × Bytes)
  pub body : Body

-- w.WriteHeader(status) and nothing else
abbrev pub bare : ℕ → Response
bare status = record { status = status; headers = []; body = no_body }

-- writeJSON
abbrev pub write_json : ℕ → Body → Response
write_json status body = record {
  status = status;
  headers = (codes "Content-Type", codes "application/json") ∷ [];
  body = body;
}

-- writeError; `id` is auth.RequestID(r).
abbrev pub write_error : Bytes → ℕ → Bytes → Bytes → Response
write_error id status code message = write_json status (error_body code message id)

-- http.NotFound
abbrev pub not_found_page : Response
not_found_page = record {
  status = 404;
  headers =
      (codes "Content-Type", codes "text/plain; charset=utf-8")
      ∷ (codes "X-Content-Type-Options", codes "nosniff")
      ∷ [];
  body = plain (codes "404 page not found" ++ 10 ∷ []);
}

-- writeAuthError of internal/auth/auth.go: text around the request id, which stands as it is.
abbrev pub auth_error_text : Bytes → Bytes
auth_error_text id =
    codes "{\"error\":\"UNAUTHORIZED\",\"message\":\"unauthorized\",\"request_id\":\""
    ++ id
    ++ codes "\"}"

abbrev pub write_auth_error : Bytes → Response
write_auth_error id = record {
  status = 401;
  headers = (codes "Content-Type", codes "application/json") ∷ [];
  body = plain (auth_error_text id);
}

abbrev pub storage_error : Bytes → Response
storage_error id = write_error id 500 (codes "STORAGE_ERROR") (codes "storage error")

-- w.Header().Set by an outer handler, before the inner one runs.
abbrev pub with_headers : List (Bytes × Bytes) → Response → Response
with_headers headers r = record r { headers = headers ++ r.headers }

unfoldable pub parse_origins : List Bytes → List Bytes
parse_origins [] = []
parse_origins (item ∷ items) =
    let rest = parse_origins items in
    if is_empty (trim_space item) then rest else trim_space item ∷ rest

unfoldable pub contains : List Bytes → Bytes → Bool
contains [] text = false
contains (item ∷ items) text = if bytes_eq item text then true else contains items text

unfoldable pub allowed_origin : Bytes → List Bytes → Option Bytes
unfolding contains
allowed_origin origin allowed =
    if contains allowed (codes "*")
    then some (codes "*")
    else if contains allowed origin
    then some origin
    else none

abbrev pub cors_allowed_headers : Bytes
cors_allowed_headers =
    codes
      "Authorization, APIKey, X-API-Key, Content-Type, Accept, X-Request-Id, X-KV-Op, X-KV-Key, X-KV-Op-Id, X-KV-Import-Mode"

abbrev pub cors_exposed_headers : Bytes
cors_exposed_headers =
    codes "X-Request-Id, X-KV-Version, X-KV-Size, X-KV-Checksum, Content-Disposition"

abbrev pub cors_allowed_methods : Bytes
cors_allowed_methods = codes "GET, HEAD, POST, PUT, DELETE, OPTIONS"

abbrev cors_headers_for : Option Bytes → List (Bytes × Bytes)
cors_headers_for none = []
cors_headers_for (some value) =
    (codes "Access-Control-Allow-Origin", value)
    ∷ (codes "Vary", codes "Origin")
    ∷ (codes "Access-Control-Allow-Methods", cors_allowed_methods)
    ∷ (codes "Access-Control-Allow-Headers", cors_allowed_headers)
    ∷ (codes "Access-Control-Expose-Headers", cors_exposed_headers)
    ∷ (codes "Access-Control-Max-Age", codes "600")
    ∷ []

-- The headers that corsMiddleware sets.
unfoldable pub cors_headers : Bytes → Bytes → List (Bytes × Bytes)
cors_headers allowed_origins origin =
    if is_empty origin
    then []
    else cors_headers_for (allowed_origin origin (parse_origins (split b',' allowed_origins)))
