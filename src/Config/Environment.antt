-- ===== src/Config/Environment.antt =====
-- Load beside what the environment says.
use httpkvdb.Base.{
  ◌≡◌, refl, Bool, true, false, not, ◌||◌, ◌&&◌, some, List, [], ◌∷◌, if◌then◌else◌, arith,
}
use httpkvdb.Base.Int.{ℤ, pos}
use httpkvdb.Base.Bytes.{Bytes, codes, bytes_eq, bytes_eq_iff, bytes_key, is_empty}
use httpkvdb.Base.Dict.{Dict, lookup, insert, lookup-insert}
use httpkvdb.Golang.Strconv.{atoi}
use httpkvdb.Config.Settings.{
  Config, value, or_default, value_int, known_keys, known_values, from_values, load_env,
}

abbrev pub is_known : Bytes → List Bytes → Bool
is_known k [] = false
is_known k (key ∷ keys) = bytes_eq key k || is_known k keys

lookup-known_values :
    (env : Bytes → Bytes) (keys : List Bytes) (values : Dict Bytes Bytes) (k : Bytes)
    → lookup (known_values env keys values) k
      ≡ (if is_known k keys && not (is_empty (env k)) then some (env k) else lookup values k)
unfolding known_values
lookup-known_values env [] values k = refl
lookup-known_values env (key ∷ keys) values k = ground (
  arith,
  bytes_eq_iff key k,
  lookup-insert values key (env key) k,
  lookup-known_values env keys (if is_empty (env key) then values else insert values key (env key))
      k,
)

-- What the environment says of a setting, or else the default.
abbrev pub setting : (Bytes → Bytes) → Bytes → Bytes → Bytes
setting env k default = if is_empty (env k) then default else env k

-- A number that cannot be read counts as none.
abbrev pub number_setting : (Bytes → Bytes) → Bytes → ℤ → ℤ
number_setting env k default =
    if is_empty (env k) then default else or_default default (atoi (env k))

module _ (env : Bytes → Bytes) where
  text_setting :
      (k default : Bytes)
      → is_known k known_keys ≡ true
      → value (known_values env known_keys []) k default ≡ setting env k default
  unfolding value lookup
  text_setting k default known = ground (arith, lookup-known_values env known_keys [] k)

  int_setting :
      (k : Bytes) (default : ℤ)
      → is_known k known_keys ≡ true
      → value_int (known_values env known_keys []) k default ≡ number_setting env k default
  unfolding value_int lookup
  int_setting k default known = ground (arith, lookup-known_values env known_keys [] k)

-- Every setting by itself.
unfoldable pub from_environment : (Bytes → Bytes) → Config
from_environment env = record {
  addr = setting env (codes "KVHTTP_ADDR") (codes "0.0.0.0:8080");
  storage_path = setting env (codes "KVHTTP_STORAGE_PATH") (codes "./data");
  cors_allowed_origins =
      setting env (codes "KVHTTP_CORS_ALLOWED_ORIGINS")
        (codes "http://127.0.0.1:5173,http://localhost:5173");
  max_key_size = number_setting env (codes "KVHTTP_MAX_KEY_SIZE") (pos 4096);
  max_value_size = number_setting env (codes "KVHTTP_MAX_VALUE_SIZE") (pos 104857600);
  max_tx_ops = number_setting env (codes "KVHTTP_MAX_TX_OPS") (pos 1000);
  default_tx_timeout_ms = number_setting env (codes "KVHTTP_DEFAULT_TX_TIMEOUT_MS") (pos 30000);
  max_tx_timeout_ms = number_setting env (codes "KVHTTP_MAX_TX_TIMEOUT_MS") (pos 300000);
  tx_clean_interval_ms = number_setting env (codes "KVHTTP_TX_CLEAN_INTERVAL_MS") (pos 5000);
  tx_result_retention_ms = number_setting env (codes "KVHTTP_TX_RESULT_RETENTION_MS") (pos 3600000);
  auth_cache_ttl_ms = number_setting env (codes "KVHTTP_AUTH_CACHE_TTL_MS") (pos 60000);
  auth_cache_max_entries = number_setting env (codes "KVHTTP_AUTH_CACHE_MAX_ENTRIES") (pos 10000);
  bootstrap_user_id = setting env (codes "KVHTTP_BOOTSTRAP_USER_ID") (codes "admin");
  bootstrap_userspace_id =
      setting env (codes "KVHTTP_BOOTSTRAP_USERSPACE_ID") (codes "admin_space");
  bootstrap_api_key = setting env (codes "KVHTTP_BOOTSTRAP_API_KEY") (codes "dev-secret-key");
  api_key_pepper = setting env (codes "KVHTTP_API_KEY_PEPPER") [];
  jwt_secret = setting env (codes "KVHTTP_JWT_SECRET") (codes "dev-jwt-secret");
  jwt_issuer = setting env (codes "KVHTTP_JWT_ISSUER") [];
  jwt_audience = setting env (codes "KVHTTP_JWT_AUDIENCE") [];
}

-- Load gives every setting by itself: the variable of its name where that is not empty, as a
-- number where the setting is one and the text can be read, and else the default.
pub load_env_lem : (env : Bytes → Bytes) → load_env env ≡ from_environment env
unfolding load_env from_values from_environment bytes_eq
load_env_lem env =
    rw
      (
        text_setting env (codes "KVHTTP_ADDR") (codes "0.0.0.0:8080") refl,
        text_setting env (codes "KVHTTP_STORAGE_PATH") (codes "./data") refl,
        text_setting env (codes "KVHTTP_CORS_ALLOWED_ORIGINS")
            (codes "http://127.0.0.1:5173,http://localhost:5173") refl,
        int_setting env (codes "KVHTTP_MAX_KEY_SIZE") (pos 4096) refl,
        int_setting env (codes "KVHTTP_MAX_VALUE_SIZE") (pos 104857600) refl,
        int_setting env (codes "KVHTTP_MAX_TX_OPS") (pos 1000) refl,
        int_setting env (codes "KVHTTP_DEFAULT_TX_TIMEOUT_MS") (pos 30000) refl,
        int_setting env (codes "KVHTTP_MAX_TX_TIMEOUT_MS") (pos 300000) refl,
        int_setting env (codes "KVHTTP_TX_CLEAN_INTERVAL_MS") (pos 5000) refl,
        int_setting env (codes "KVHTTP_TX_RESULT_RETENTION_MS") (pos 3600000) refl,
        int_setting env (codes "KVHTTP_AUTH_CACHE_TTL_MS") (pos 60000) refl,
        int_setting env (codes "KVHTTP_AUTH_CACHE_MAX_ENTRIES") (pos 10000) refl,
        text_setting env (codes "KVHTTP_BOOTSTRAP_USER_ID") (codes "admin") refl,
        text_setting env (codes "KVHTTP_BOOTSTRAP_USERSPACE_ID") (codes "admin_space") refl,
        text_setting env (codes "KVHTTP_BOOTSTRAP_API_KEY") (codes "dev-secret-key") refl,
        text_setting env (codes "KVHTTP_API_KEY_PEPPER") [] refl,
        text_setting env (codes "KVHTTP_JWT_SECRET") (codes "dev-jwt-secret") refl,
        text_setting env (codes "KVHTTP_JWT_ISSUER") [] refl,
        text_setting env (codes "KVHTTP_JWT_AUDIENCE") [] refl,
      )
      refl
