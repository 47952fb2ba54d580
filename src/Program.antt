-- ===== src/Program.antt =====
-- cmd/kvhttpd/main.go: from the settings and the files to a server.
pub mod Life
pub mod Sound
use httpkvdb.Base.{◌≡◌, refl, sym, ◌∙◌, false, Option, some, if◌then◌else◌, arith, inl, inr}
use mathlib.Core.Path.{subst}
use httpkvdb.Base.Bytes.{Bytes, codes, bytes_eq_iff, bytes_key, is_empty}
use httpkvdb.Base.Dict.{member, lookup-insert}
use httpkvdb.Golang.Stream.{Stream}
use httpkvdb.Model.{Time, Result, Result-cases, ok, err}
use httpkvdb.Storage.Disk.{Disk, Env}
use httpkvdb.Storage.Store.{Store, open_store, save}
use httpkvdb.Storage.Accounts.{active_key, bootstrap, principal_of, resolve_api_key_hash}
use httpkvdb.Auth.Token.{TokenLib, api_key_hash}
use httpkvdb.Auth.Authenticator.{new_authenticator, authenticate_request}
use httpkvdb.Auth.Coherent.{IsCoherent-empty}
use httpkvdb.Auth.Refines.{api_key, credential_of, bearer, authenticate_request_refines}
use httpkvdb.Config.Settings.{Config, load_env}
use httpkvdb.Config.EnvFile.{FileError, loaded, refused, load_from_file}
use httpkvdb.Tx.Coordinator.{new_coordinator}
use httpkvdb.Http.Server.{Server, Metrics, new_server}
use httpkvdb.Http.Transactions.{milliseconds}

-- Where log.Fatalf ends the program.
pub data StartError : Type 0 where
  config_error : FileError → StartError
  storage_failed bootstrap_failed : StartError

pub data Started (Doc : Type 0) : Type 0 where
  started : Server Doc → Started Doc
  ended : StartError → Started Doc

abbrev zero_metrics : Metrics
zero_metrics = record {
  requests = 0;
  kv_get = 0;
  kv_put = 0;
  kv_delete = 0;
  tx_created = 0;
  tx_committed = 0;
  tx_aborted = 0;
  tx_expired = 0;
  imports = 0;
  exports = 0;
}

abbrev pub pepper_of : Config → Bytes
pepper_of cfg = if is_empty cfg.api_key_pepper then cfg.jwt_secret else cfg.api_key_pepper

-- The server on a store.
abbrev pub server_of : {Doc : Type 0} → Config → Store Doc → Server Doc
server_of cfg store =
    let auth =
      new_authenticator cfg.jwt_secret (pepper_of cfg) cfg.jwt_issuer cfg.jwt_audience
        (milliseconds cfg.auth_cache_ttl_ms) cfg.auth_cache_max_entries in
    let tx =
      new_coordinator cfg.max_tx_ops (milliseconds cfg.default_tx_timeout_ms)
        (milliseconds cfg.max_tx_timeout_ms) in
    new_server cfg store auth tx zero_metrics

-- `disk` is what stands under a path, `file` the settings file that -config names.
module _ {Doc : Type 0} (env : Env Doc) (lib : TokenLib) (disk : Bytes → Disk Doc) where
  unfoldable pub start_with : Config → Started Doc
  start_with cfg =
      let (r, disk') = open_store env (disk cfg.storage_path) in
      elim r [
        | err e ↦ ended storage_failed
        | ok store ↦
            let hash = api_key_hash lib cfg.bootstrap_api_key (pepper_of cfg) in
            let (b, store') =
              bootstrap env store cfg.bootstrap_user_id cfg.bootstrap_userspace_id hash in
            elim b [ err e ↦ ended bootstrap_failed | ok _ ↦ started (server_of cfg store') ]
      ]

  unfoldable pub start :
      (Bytes → Bytes) → (Bytes → Option Bytes) → Bytes → Option Stream → Started Doc
  start getenv go_unquote config_path file =
      if is_empty config_path
      then start_with (load_env getenv)
      else elim (load_from_file go_unquote file) [
        | refused e ↦ ended (config_error e)
        | loaded cfg ↦ start_with cfg
      ]

  -- The bootstrap of a store that does not know the key.
  bootstrap_resolves :
      (s : Store Doc) (user_id u hash : Bytes)
      → is_empty hash ≡ false
      → member s.contents.api_keys hash ≡ false
      → resolve_api_key_hash (bootstrap env s user_id u hash).1 hash
        ≡ some (principal_of user_id u (codes "admin") (codes "apikey"))
  unfolding bootstrap save resolve_api_key_hash
  bootstrap_resolves s user_id u hash full unknown =
      let p = principal_of user_id u (codes "admin") (codes "apikey") in
      ground (
        arith,
        lookup-insert s.contents.api_keys hash (active_key hash p) hash,
        bytes_eq_iff hash hash,
      )

  pepper_twice :
      (cfg : Config) (store : Store Doc) → (server_of cfg store).auth.api_key_pepper ≡ pepper_of cfg
  unfolding new_authenticator
  pepper_twice cfg store = ground arith

  unfoldable pub booted : Config → Store Doc → Result (Unit {0}) × Store Doc
  booted cfg store =
      bootstrap env store cfg.bootstrap_user_id cfg.bootstrap_userspace_id
        (api_key_hash lib cfg.bootstrap_api_key (pepper_of cfg))

  pub started_is :
      (cfg : Config) (s : Server Doc) (store : Store Doc)
      → start_with cfg ≡ started s
      → (open_store env (disk cfg.storage_path)).0 ≡ ok store
      → s ≡ server_of cfg (booted cfg store).1
  unfolding start_with booted
  started_is cfg s store h opened = elim (Result-cases (booted cfg store).0) [
    | inl (done, b) ↦ started-inj (sym (rw (opened, start_with) at h) ∙ rw b refl)
    | inr (e, b) ↦
        absurd (not_ended {e = bootstrap_failed} (sym (rw (opened, start_with) at h) ∙ rw b refl))
  ]
    where
      started-inj : {s1 s2 : Server Doc} → Path (Started Doc) (started s1) (started s2) → s1 ≡ s2
      started-inj p = cc

      not_ended : {s1 : Server Doc} {e : StartError} → Path (Started Doc) (started s1) (ended e) → ⊥
      not_ended p = cc

  -- After a start that succeeds, the bootstrap key that is set, if not empty, authenticates at
  -- any later time as the administrator of the bootstrap userspace. The stored data did not know
  -- the key before.
  pub start_admin :
      (cfg : Config) (s : Server Doc) (store : Store Doc) (now : Time) (header : Bytes → Bytes)
      → start_with cfg ≡ started s
      → (open_store env (disk cfg.storage_path)).0 ≡ ok store
      → member store.contents.api_keys (api_key_hash lib cfg.bootstrap_api_key (pepper_of cfg))
        ≡ false
      → is_empty cfg.bootstrap_api_key ≡ false
      → credential_of header ≡ api_key cfg.bootstrap_api_key
      → (authenticate_request lib now s.store s.auth header).0
        ≡ ok (
            principal_of cfg.bootstrap_user_id cfg.bootstrap_userspace_id
              (codes "admin")
              (codes "apikey"))
  unfolding booted
  start_admin cfg s store now header h opened unknown full shows =
      let hash = api_key_hash lib cfg.bootstrap_api_key (pepper_of cfg) in
      let s' = server_of cfg (booted cfg store).1 in
      subst
        (λ x.
          (authenticate_request lib now x.store x.auth header).0
          ≡ ok (
              principal_of cfg.bootstrap_user_id cfg.bootstrap_userspace_id (codes "admin")
                (codes "apikey")))
        (sym (started_is cfg s store h opened))
        ((authenticate_request_refines lib now s'.store s'.auth header
            (unfold new_authenticator in IsCoherent-empty s'.store)).0
          ∙ rw shows (
              unfold bearer in
              rw (full, pepper_twice cfg (booted cfg store).1)
                (rw
                  (bootstrap_resolves store cfg.bootstrap_user_id cfg.bootstrap_userspace_id hash
                    (unfold api_key_hash in refl) unknown)
                  refl)))
