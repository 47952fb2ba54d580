-- ===== src/Tests/Http.antt =====
-- Requests to a server.
use httpkvdb.Auth.Refines.{credential_of, bearer}
use httpkvdb.Storage.Snapshot.{userspace_exists, Snapshot, empty_snapshot}
use httpkvdb.Program.{start_with, server_of, start_admin}
use httpkvdb.Storage.Store.{open_store, Store}
use httpkvdb.Storage.Disk.{
  load, sync_records, sync_spaces, sync_userspace_files, write_database, persist,
}
use httpkvdb.Config.Settings.{value, Config, load_env, from_values}
use httpkvdb.Base.Dict.{member, insert, lookup}
use httpkvdb.Golang.Encoding.{hex, base64_raw_url}
use httpkvdb.Storage.Accounts.{
  bootstrap, principal_of, resolve_api_key_hash, replace_userspace_api_key_hash,
}
use httpkvdb.Auth.Token.{api_key_hash}
use httpkvdb.Auth.Cache.{CacheEntry}
use httpkvdb.Auth.Authenticator.{
  api_key_entry, authenticate_api_key, authenticate_request, new_authenticator,
}
use httpkvdb.Http.Admin.{rotate_to, handle_rotate}
use httpkvdb.Http.Server.{World, Server}
use httpkvdb.Http.Stale.{failed_rotation_stale}
use httpkvdb.Model.{io_error, ok}
use httpkvdb.Base.{none, some, false, [], ◌∷◌, ◌≡◌, refl}
use httpkvdb.Tests.World.{
  at_time, calm_io, cold, hash_of, toy_tokens, empty_disk, shows, server, web, request, alice, home,
  alices_key,
}
use httpkvdb.Http.Message.{contains, Request}
use httpkvdb.Base.Bytes.{bytes_eq, codes}
use httpkvdb.Golang.Text.{trim_space}
use httpkvdb.Auth.Coherent.{IsCoherent, IsCoherent-empty}
use httpkvdb.Tx.Outside.{IsOutside}
use httpkvdb.Storage.Atomic.{clone_snapshot}
use httpkvdb.Http.Router.{protected_v1}
use httpkvdb.Http.Isolation.{request_isolated}
use httpkvdb.Http.Rotation.{bearer_after, rotate_revokes}

abbrev pub put_x : Request
put_x = request (codes "PUT") (codes "/v1/kv/x") alices_key (codes "1")

abbrev get_x : Request
get_x = request (codes "GET") (codes "/v1/kv/x") alices_key []

abbrev unknown : Request
unknown = request (codes "PUT") (codes "/v1/kv/x") (codes "k2") (codes "1")

request_isolated_example :
    IsOutside home server.store.contents
      (protected_v1 web (codes "i") server put_x).1.store.contents
    × IsCoherent
        (protected_v1 web (codes "i") server put_x).1.store
        (protected_v1 web (codes "i") server put_x).1.auth.cache
unfolding new_authenticator clone_snapshot api_key_hash hex bearer credential_of trim_space bytes_eq
    resolve_api_key_hash lookup contains
request_isolated_example =
    request_isolated web (codes "i") server put_x (record alice { auth_method = codes "apikey" })
      (IsCoherent-empty server.store) (λ d h. cc) refl refl

-- The old key, after the rotation.
rotate_revokes_example :
    (authenticate_request toy_tokens 40
      (handle_rotate web (codes "i") server home).1.store
      (handle_rotate web (codes "i") server home).1.auth
      (shows alices_key)).0
    ≡ bearer_after web (codes "i") server home (codes "bmV3") alices_key
unfolding new_authenticator base64_raw_url handle_rotate rotate_to replace_userspace_api_key_hash
    userspace_exists member bytes_eq persist write_database sync_userspace_files sync_spaces
    sync_records credential_of trim_space
rotate_revokes_example =
    rotate_revokes web (codes "i") server home (codes "bmV3") alices_key 40 (shows alices_key)
      (tt, tt) refl refl refl

-- A server that keeps the principal of alice in its cache, and a disk that refuses to rename.
abbrev stuck : World Snapshot
stuck = record web { env = record (at_time 15) { io = record calm_io { rename = false } } }

abbrev entry_of_alice : CacheEntry
entry_of_alice = record { principal = alice; expires = 70 }

abbrev warm_server : Server Snapshot
warm_server = record server {
  auth = record cold { cache = (api_key_entry (hash_of alices_key), entry_of_alice) ∷ [] };
}

failed_rotation_stale_example :
    (resolve_api_key_hash
        (rotate_to stuck (codes "i") warm_server home (codes "bmV3")).1.store
        (hash_of alices_key)
      ≡ none)
    × ((authenticate_api_key toy_tokens 20
          (rotate_to stuck (codes "i") warm_server home (codes "bmV3")).1.store
          (rotate_to stuck (codes "i") warm_server home (codes "bmV3")).1.auth
          alices_key).0
        ≡ ok alice)
unfolding new_authenticator userspace_exists member bytes_eq replace_userspace_api_key_hash persist
    write_database api_key_hash hex resolve_api_key_hash
failed_rotation_stale_example =
    failed_rotation_stale stuck (codes "i") warm_server home (codes "bmV3") alices_key 20 alice
      entry_of_alice io_error (tt, tt) refl refl refl refl refl refl refl refl

-- A start on an empty disk with the settings of an empty environment.
abbrev pub settings : Config
settings = load_env (λ k. [])

abbrev pub opened_store : Store Snapshot
opened_store = record {
  contents = empty_snapshot;
  disk = record empty_disk { file = some empty_snapshot };
}

abbrev pub first_store : Store Snapshot
first_store =
    (bootstrap (at_time 5) opened_store (codes "admin") (codes "admin_space")
      (api_key_hash toy_tokens (codes "dev-secret-key") (codes "dev-jwt-secret"))).1

start_admin_example :
    (authenticate_request toy_tokens 15 first_store
      (server_of settings first_store).auth
      (shows (codes "dev-secret-key"))).0
    ≡ ok (principal_of (codes "admin") (codes "admin_space") (codes "admin") (codes "apikey"))
unfolding from_values start_with open_store load persist write_database sync_userspace_files
    sync_spaces bootstrap lookup member api_key_hash insert sync_records load_env value hex
    credential_of trim_space bytes_eq
start_admin_example =
    start_admin (at_time 5) toy_tokens (λ path. empty_disk) settings
      (server_of settings first_store) opened_store 15 (shows (codes "dev-secret-key")) refl refl
      refl refl refl
