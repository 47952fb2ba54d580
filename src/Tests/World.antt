-- ===== src/Tests/World.antt =====
-- A world for runs: a document is the data itself, and every file call succeeds.
use httpkvdb.Base.{true, false, none, some, [], ◌∷◌, ◌++◌, if◌then◌else◌}
use httpkvdb.Base.Int.{ℤ, pos}
use httpkvdb.Base.Bytes.{Bytes, codes, bytes_eq}
use httpkvdb.Golang.Crypto.{toy_std}
use httpkvdb.Model.{Time, KvRecord, Principal, Transaction, TxOperation, TxStatus}
use httpkvdb.Storage.Snapshot.{Snapshot, empty_snapshot}
use httpkvdb.Storage.Disk.{Json, Io, Disk, Env, success}
use httpkvdb.Storage.Store.{Store}
use httpkvdb.Storage.Accounts.{active_key}
use httpkvdb.Auth.Token.{TokenLib, no_text, api_key_hash}
use httpkvdb.Auth.Authenticator.{Authenticator, new_authenticator}
use httpkvdb.Config.Settings.{from_values}
use httpkvdb.Http.Message.{Request}
use httpkvdb.Http.Server.{Server, Metrics, World}

abbrev pub plain_json : Json Snapshot
plain_json = record { marshal = some; unmarshal = some; is_blank = λ d. false }

abbrev pub calm_io : Io Snapshot
calm_io = record {
  mkdir_path = true;
  read_file = true;
  write_tmp = success;
  rename = true;
  remove_all = success;
  mkdir = λ dir. true;
  write_file = λ dir name. success;
}

abbrev pub at_time : Time → Env Snapshot
at_time now = record { std = toy_std; json = plain_json; io = calm_io; now = now }

abbrev pub empty_disk : Disk Snapshot
empty_disk = record { file = none; tmp = none; mirror = [] }

abbrev pub store_of : Snapshot → Store Snapshot
store_of d = record { contents = d; disk = empty_disk }

abbrev pub home : Bytes
home = codes "home"

abbrev pub alice : Principal
alice = record {
  user_id = codes "alice";
  userspace_id = home;
  roles = [];
  auth_method = codes "apikey";
}

abbrev pub mallory : Principal
mallory = record {
  user_id = codes "mallory";
  userspace_id = home;
  roles = [];
  auth_method = codes "apikey";
}

abbrev pub greeting : KvRecord
greeting = record {
  userspace_id = home;
  key = codes "k";
  value = codes "hi";
  content_type = codes "text/plain";
  value_type = codes "string";
  version = 1;
  created_at = 5000000;
  updated_at = 7000000;
  checksum = [];
}

abbrev pub home_store : Store Snapshot
home_store =
    store_of (record empty_snapshot { userspaces = (home, (codes "k", greeting) ∷ []) ∷ [] })

abbrev pub an_op : ℤ → Bytes → Bytes → TxOperation
an_op seq op_type key = record {
  tx_id = codes "t1";
  seq = seq;
  op_id = codes "o";
  op_type = op_type;
  key = key;
  content_type = codes "text/plain";
  body = codes "v";
  body_hash = [];
  received_at = 0;
}

-- A transaction with two operations, the second of the given type.
abbrev pub two_ops : Bytes → TxStatus → Transaction
two_ops second status = record {
  tx_id = codes "t1";
  user_id = codes "alice";
  userspace_id = home;
  total_ops = pos 2;
  status = status;
  created_at = 10;
  deadline = 20;
  commit_received = true;
  tx_digest = [];
  ops =
      (pos 1, an_op (pos 1) (codes "PUT") (codes "a"))
      ∷ (pos 2, an_op (pos 2) second (codes "a"))
      ∷ [];
  result = none;
  abort_reason = [];
}

abbrev pub with_tx : Transaction → Store Snapshot
with_tx t = store_of (record home_store.contents { txs = (codes "t1", t) ∷ [] })

-- A server, with the key of alice. The HMAC is the secret before the message, and the claims of a
-- token are its subject alone.
abbrev pub toy_tokens : TokenLib
toy_tokens = record {
  hmac = λ key message. key ++ message;
  claims = λ bytes. some (record {
    subject = bytes;
    expires_at = pos 0;
    not_before = pos 0;
    issuer = [];
    audience = no_text;
  });
}

abbrev pub secret : Bytes
secret = codes "s"

abbrev pub hash_of : Bytes → Bytes
hash_of key = api_key_hash toy_tokens key secret

abbrev pub alices_key : Bytes
alices_key = codes "k1"

abbrev pub keyed_store : Store Snapshot
keyed_store = store_of (record home_store.contents {
  api_keys = (hash_of alices_key, active_key (hash_of alices_key) alice) ∷ [];
})

abbrev pub cold : Authenticator
cold = new_authenticator secret [] [] [] (pos 60) (pos 2)

abbrev pub no_metrics : Metrics
no_metrics = record {
  requests = 0;
  kv_get = 0;
  kv_put = 0;
  kv_delete = 0;
  tx_created = 0;
  tx_committed = 0;
  tx_aborted = 0;
  tx_expired = 0;
  imports = 0;
  exports = 0;
}

abbrev pub server : Server Snapshot
server = record {
  cfg = from_values [];
  store = keyed_store;
  auth = cold;
  tx = record { max_ops = pos 10; default_timeout = pos 5; max_timeout = pos 50 };
  metrics = no_metrics;
}

abbrev pub web : World Snapshot
web = record {
  env = at_time 15;
  tokens = toy_tokens;
  userspace_request = λ b. none;
  tx_request = λ b. none;
  commit_request = λ b. record { total_ops = pos 0; tx_digest = [] };
  random_key = some (codes "new");
  random_tx = codes "t9";
  random_request = codes "r";
}

-- A request that shows the key of alice, or another.
abbrev pub shows : Bytes → Bytes → Bytes
shows key name = if bytes_eq name (codes "APIKey") then key else []

abbrev pub request : Bytes → Bytes → Bytes → Bytes → Request
request method path key body = record {
  method = method;
  path = path;
  header = shows key;
  content_length = pos 0;
  body = record { bytes = body; fails = false };
}
