-- ===== src/Tests/Config.antt =====
-- Settings.
use httpkvdb.Base.{◌≡◌, [], if◌then◌else◌}
use httpkvdb.Base.Bytes.{Bytes, codes, bytes_eq}
use httpkvdb.Config.Settings.{load_env}
use httpkvdb.Config.Environment.{from_environment, load_env_lem}

-- An address, and a number that is none.
abbrev environment : Bytes → Bytes
environment k =
    if bytes_eq k (codes "KVHTTP_ADDR")
    then codes ":80"
    else if bytes_eq k (codes "KVHTTP_MAX_TX_OPS")
    then codes "many"
    else []

load_env_lem_example : load_env environment ≡ from_environment environment
load_env_lem_example = load_env_lem environment
