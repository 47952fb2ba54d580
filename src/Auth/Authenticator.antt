-- ===== src/Auth/Authenticator.antt =====
-- Authenticator of internal/auth/auth.go: who makes a request.
use httpkvdb.Base.{not, Option, none, some, [], ◌++◌, if◌then◌else◌}
use httpkvdb.Base.Int.{ℤ}
use httpkvdb.Base.Bytes.{Bytes, codes, is_empty}
use httpkvdb.Golang.Text.{trim_space, has_prefix, trim_prefix}
use httpkvdb.Model.{Time, Principal, Result, ok, err, unauthorized}
use httpkvdb.Storage.Store.{Store}
use httpkvdb.Storage.Accounts.{resolve_api_key_hash, resolve_jwt_subject}
use httpkvdb.Tx.Coordinator.{add_duration}
use httpkvdb.Auth.Token.{TokenLib, api_key_hash, verify_jwt}
use httpkvdb.Auth.Cache.{Cache, get_cache, set_cache}

-- The store is passed to the methods.
pub record Authenticator : Type 0 where
  pub jwt_secret : Bytes
  pub api_key_pepper : Bytes
  pub issuer : Bytes
  pub audience : Bytes
  pub ttl : ℤ
  pub max : ℤ
  pub cache : Cache

-- New
unfoldable pub new_authenticator : Bytes → Bytes → Bytes → Bytes → ℤ → ℤ → Authenticator
new_authenticator jwt_secret pepper issuer audience ttl max = record {
  jwt_secret = jwt_secret;
  api_key_pepper = if is_empty pepper then jwt_secret else pepper;
  issuer = issuer;
  audience = audience;
  ttl = ttl;
  max = max;
  cache = [];
}

unfoldable pub invalidate : Authenticator → Authenticator
invalidate a = record a { cache = [] }

abbrev pub api_key_entry : Bytes → Bytes
api_key_entry hash = codes "apikey:" ++ hash

abbrev pub jwt_entry : Bytes → Bytes
jwt_entry subject = codes "jwt:" ++ subject

-- p.AuthMethod = "jwt"
abbrev pub as_jwt : Option Principal → Option Principal
as_jwt none = none
as_jwt (some p) = some (record p { auth_method = codes "jwt" })

module _ {Doc : Type 0} (lib : TokenLib) (now : Time) (s : Store Doc) where
  -- What follows the cache: `found` is what the store says, and is kept under the key.
  unfoldable pub remember :
      Authenticator → Bytes → Option Principal → Result Principal × Authenticator
  remember a k none = (err unauthorized, a)
  remember a k (some p) =
      (ok p, record a { cache = set_cache a.max (add_duration now a.ttl) a.cache k p })

  -- The cache under the key `k`, and else the store.
  unfoldable pub cached :
      Authenticator → Bytes → Option Principal → Result Principal × Authenticator
  unfolding remember
  cached a k found =
      let (hit, cache) = get_cache now a.cache k in
      let a' : Authenticator = record a { cache = cache } in
      elim hit [ some p ↦ (ok p, a') | none ↦ remember a' k found ]

  unfoldable pub authenticate_api_key : Authenticator → Bytes → Result Principal × Authenticator
  authenticate_api_key a key =
      let hash = api_key_hash lib key a.api_key_pepper in
      if is_empty key
      then (err unauthorized, a)
      else cached a (api_key_entry hash) (resolve_api_key_hash s hash)

  unfoldable pub authenticate_token : Authenticator → Bytes → Result Principal × Authenticator
  authenticate_token a token = elim (verify_jwt lib a.jwt_secret a.issuer a.audience now token) [
    | err e ↦ (err unauthorized, a)
    | ok subject ↦ cached a (jwt_entry subject) (as_jwt (resolve_jwt_subject s subject))
  ]

  -- Authenticate, on the header Authorization
  unfoldable pub authenticate : Authenticator → Bytes → Result Principal × Authenticator
  authenticate a header =
      if is_empty header
      then (err unauthorized, a)
      else if has_prefix header (codes "ApiKey ")
      then authenticate_api_key a (trim_space (trim_prefix header (codes "ApiKey ")))
      else if has_prefix header (codes "Bearer ")
      then authenticate_token a (trim_space (trim_prefix header (codes "Bearer ")))
      else (err unauthorized, a)

  -- AuthenticateRequest, on a request's headers
  unfoldable pub authenticate_request :
      Authenticator → (Bytes → Bytes) → Result Principal × Authenticator
  authenticate_request a header =
      let first = trim_space (header (codes "APIKey")) in
      let second = trim_space (header (codes "X-API-Key")) in
      if not (is_empty first)
      then authenticate_api_key a first
      else if not (is_empty second)
      then authenticate_api_key a second
      else authenticate a (header (codes "Authorization"))
