-- ===== src/Http/Server.antt =====
-- Server of internal/httpapi/router.go, with the counters of internal/observe/metrics.go.
use httpkvdb.Base.{ℕ, ◌+◌, ◌%◌, ◌^◌, Option, [], ◌∷◌, ◌++◌}
use httpkvdb.Base.Int.{ℤ}
use httpkvdb.Base.Bytes.{Bytes, codes}
use httpkvdb.Golang.Stream.{Stream}
use httpkvdb.Storage.Disk.{Env}
use httpkvdb.Storage.Store.{Store}
use httpkvdb.Tx.Coordinator.{Coordinator}
use httpkvdb.Golang.Strconv.{format_uint}
use httpkvdb.Auth.Token.{TokenLib}
use httpkvdb.Auth.Authenticator.{Authenticator}
use httpkvdb.Config.Settings.{Config}
use httpkvdb.Http.Message.{Response, plain}

pub record Metrics : Type 0 where
  pub requests : ℕ
  pub kv_get : ℕ
  pub kv_put : ℕ
  pub kv_delete : ℕ
  pub tx_created : ℕ
  pub tx_committed : ℕ
  pub tx_aborted : ℕ
  pub tx_expired : ℕ
  pub imports : ℕ
  pub exports : ℕ

-- atomic.AddUint64(&counter, 1)
abbrev pub add_one : ℕ → ℕ
add_one n = (n + 1) % 2 ^ 64

-- A line of Metrics.Handler.
abbrev line : Bytes → ℕ → Bytes → Bytes
line name count rest = name ++ (b' ' ∷ format_uint count) ++ (10 ∷ rest)

-- Metrics.Handler
unfoldable pub metrics_page : Metrics → Response
metrics_page m = record {
  status = 200;
  headers = (codes "Content-Type", codes "text/plain; version=0.0.4") ∷ [];
  body = plain (
      line (codes "http_requests_total") m.requests (
        line (codes "kv_get_total") m.kv_get (
          line (codes "kv_put_total") m.kv_put (
            line (codes "kv_delete_total") m.kv_delete (
              line (codes "tx_created_total") m.tx_created (
                line (codes "tx_committed_total") m.tx_committed (
                  line (codes "tx_aborted_total") m.tx_aborted (
                    line (codes "tx_expired_total") m.tx_expired (
                      line (codes "import_total") m.imports
                        (line (codes "export_total") m.exports []))))))))));
}

-- The global lock is held for the whole of a handler's work on the store, so it has no state here.
pub record Server (Doc : Type 0) : Type 0 where
  pub cfg : Config
  pub store : Store Doc
  pub auth : Authenticator
  pub tx : Coordinator
  pub metrics : Metrics

-- NewServer
abbrev pub new_server :
    {Doc : Type 0} → Config → Store Doc → Authenticator → Coordinator → Metrics → Server Doc
new_server cfg store auth tx metrics = record {
  cfg = cfg;
  store = store;
  auth = auth;
  tx = tx;
  metrics = metrics;
}

-- The bodies of requests, as json.Decoder reads them.
pub record CreateUserspaceRequest : Type 0 where
  pub user_id : Bytes
  pub userspace_id : Bytes

pub record CreateTxRequest : Type 0 where
  pub tx_id : Bytes
  pub total_ops : ℤ
  pub timeout_ms : ℤ

pub record CommitRequest : Type 0 where
  pub total_ops : ℤ
  pub tx_digest : Bytes

-- The world of one request: the store's, the libraries, and what crypto/rand gives.
pub record World (Doc : Type 0) : Type 0 where
  pub env : Env Doc
  pub tokens : TokenLib
  pub userspace_request : Stream → Option CreateUserspaceRequest
  pub tx_request : Stream → Option CreateTxRequest
  pub commit_request : Stream → CommitRequest
  pub random_key : Option Bytes
  pub random_tx : Bytes
  pub random_request : Bytes
