-- ===== src/Config/Settings.antt =====
-- Config, fromValues, value, valueInt, Load of internal/config/config.go.
use httpkvdb.Base.{Option, none, some, List, [], ◌∷◌, if◌then◌else◌}
use httpkvdb.Base.Int.{ℤ, pos}
use httpkvdb.Base.Bytes.{Bytes, codes, bytes_key, is_empty}
use httpkvdb.Base.Dict.{Dict, lookup, insert}
use httpkvdb.Golang.Strconv.{atoi}

pub record Config : Type 0 where
  pub addr : Bytes
  pub storage_path : Bytes
  pub cors_allowed_origins : Bytes
  pub max_key_size : ℤ
  pub max_value_size : ℤ
  pub max_tx_ops : ℤ
  pub default_tx_timeout_ms : ℤ
  pub max_tx_timeout_ms : ℤ
  pub tx_clean_interval_ms : ℤ
  pub tx_result_retention_ms : ℤ
  pub auth_cache_ttl_ms : ℤ
  pub auth_cache_max_entries : ℤ
  pub bootstrap_user_id : Bytes
  pub bootstrap_userspace_id : Bytes
  pub bootstrap_api_key : Bytes
  pub api_key_pepper : Bytes
  pub jwt_secret : Bytes
  pub jwt_issuer : Bytes
  pub jwt_audience : Bytes

abbrev pub known_keys : List Bytes
known_keys =
    codes "KVHTTP_ADDR"
    ∷ codes "KVHTTP_STORAGE_PATH"
    ∷ codes "KVHTTP_CORS_ALLOWED_ORIGINS"
    ∷ codes "KVHTTP_MAX_KEY_SIZE"
    ∷ codes "KVHTTP_MAX_VALUE_SIZE"
    ∷ codes "KVHTTP_MAX_TX_OPS"
    ∷ codes "KVHTTP_DEFAULT_TX_TIMEOUT_MS"
    ∷ codes "KVHTTP_MAX_TX_TIMEOUT_MS"
    ∷ codes "KVHTTP_TX_CLEAN_INTERVAL_MS"
    ∷ codes "KVHTTP_TX_RESULT_RETENTION_MS"
    ∷ codes "KVHTTP_AUTH_CACHE_TTL_MS"
    ∷ codes "KVHTTP_AUTH_CACHE_MAX_ENTRIES"
    ∷ codes "KVHTTP_BOOTSTRAP_USER_ID"
    ∷ codes "KVHTTP_BOOTSTRAP_USERSPACE_ID"
    ∷ codes "KVHTTP_BOOTSTRAP_API_KEY"
    ∷ codes "KVHTTP_API_KEY_PEPPER"
    ∷ codes "KVHTTP_JWT_SECRET"
    ∷ codes "KVHTTP_JWT_ISSUER"
    ∷ codes "KVHTTP_JWT_AUDIENCE"
    ∷ []

-- values[k], the empty text if there is none
abbrev pub text_of : Option Bytes → Bytes
text_of none = []
text_of (some v) = v

unfoldable pub value : Dict Bytes Bytes → Bytes → Bytes → Bytes
value values k default = let v = text_of (lookup values k) in if is_empty v then default else v

abbrev pub or_default : ℤ → Option ℤ → ℤ
or_default default none = default
or_default default (some n) = n

unfoldable pub value_int : Dict Bytes Bytes → Bytes → ℤ → ℤ
value_int values k default =
    let v = text_of (lookup values k) in if is_empty v then default else or_default default (atoi v)

unfoldable pub from_values : Dict Bytes Bytes → Config
from_values values = record {
  addr = value values (codes "KVHTTP_ADDR") (codes "0.0.0.0:8080");
  storage_path = value values (codes "KVHTTP_STORAGE_PATH") (codes "./data");
  cors_allowed_origins =
      value values (codes "KVHTTP_CORS_ALLOWED_ORIGINS")
        (codes "http://127.0.0.1:5173,http://localhost:5173");
  max_key_size = value_int values (codes "KVHTTP_MAX_KEY_SIZE") (pos 4096);
  max_value_size = value_int values (codes "KVHTTP_MAX_VALUE_SIZE") (pos 104857600);
  max_tx_ops = value_int values (codes "KVHTTP_MAX_TX_OPS") (pos 1000);
  default_tx_timeout_ms = value_int values (codes "KVHTTP_DEFAULT_TX_TIMEOUT_MS") (pos 30000);
  max_tx_timeout_ms = value_int values (codes "KVHTTP_MAX_TX_TIMEOUT_MS") (pos 300000);
  tx_clean_interval_ms = value_int values (codes "KVHTTP_TX_CLEAN_INTERVAL_MS") (pos 5000);
  tx_result_retention_ms = value_int values (codes "KVHTTP_TX_RESULT_RETENTION_MS") (pos 3600000);
  auth_cache_ttl_ms = value_int values (codes "KVHTTP_AUTH_CACHE_TTL_MS") (pos 60000);
  auth_cache_max_entries = value_int values (codes "KVHTTP_AUTH_CACHE_MAX_ENTRIES") (pos 10000);
  bootstrap_user_id = value values (codes "KVHTTP_BOOTSTRAP_USER_ID") (codes "admin");
  bootstrap_userspace_id =
      value values (codes "KVHTTP_BOOTSTRAP_USERSPACE_ID") (codes "admin_space");
  bootstrap_api_key = value values (codes "KVHTTP_BOOTSTRAP_API_KEY") (codes "dev-secret-key");
  api_key_pepper = value values (codes "KVHTTP_API_KEY_PEPPER") [];
  jwt_secret = value values (codes "KVHTTP_JWT_SECRET") (codes "dev-jwt-secret");
  jwt_issuer = value values (codes "KVHTTP_JWT_ISSUER") [];
  jwt_audience = value values (codes "KVHTTP_JWT_AUDIENCE") [];
}

-- The loop of Load over the known keys; `env` is os.Getenv.
unfoldable pub known_values : (Bytes → Bytes) → List Bytes → Dict Bytes Bytes → Dict Bytes Bytes
known_values env [] values = values
known_values env (key ∷ keys) values =
    known_values env keys (if is_empty (env key) then values else insert values key (env key))

-- Load
unfoldable pub load_env : (Bytes → Bytes) → Config
unfolding known_values from_values
load_env env = from_values (known_values env known_keys [])
