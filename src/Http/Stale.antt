-- ===== src/Http/Stale.antt =====
-- A rotation of a key whose save fails.
use httpkvdb.Base.{◌≡◌, refl, ◌∙◌, true, false, none, some, arith, ltb}
use httpkvdb.Base.Bytes.{Bytes, bytes_eq, bytes_key, is_empty}
use httpkvdb.Base.Dict.{IsMap, lookup}
use httpkvdb.Model.{Error, Time, Principal, ok, err}
use httpkvdb.Storage.Snapshot.{userspace_exists}
use httpkvdb.Storage.Accounts.{in_space, replace_userspace_api_key_hash, resolve_api_key_hash}
use httpkvdb.Storage.Rekey.{replace_rekeys}
use httpkvdb.Auth.Cache.{CacheEntry, get_cache}
use httpkvdb.Auth.Token.{api_key_hash}
use httpkvdb.Auth.Authenticator.{api_key_entry, cached, authenticate_api_key}
use httpkvdb.Http.Server.{Server, World}
use httpkvdb.Http.Admin.{rotate_to}

module _ {Doc : Type 0} (w : World Doc) (id : Bytes) (s : Server Doc) (u new key : Bytes) where
  abbrev pub hashed : Bytes → Bytes
  hashed k = api_key_hash w.tokens k s.auth.api_key_pepper

  failed_rotation :
      userspace_exists s.store.contents u ≡ true
      → (e : Error) → (replace_userspace_api_key_hash w.env s.store u (hashed new)).0.1 ≡ err e
      → ((rotate_to w id s u new).1.auth ≡ s.auth)
        × ((rotate_to w id s u new).1.store
            ≡ (replace_userspace_api_key_hash w.env s.store u (hashed new)).1)
  unfolding rotate_to
  failed_rotation there e fails = ground arith

  -- After a rotation whose save fails, the store does not know an old key of the userspace any
  -- more, but while the cache has an entry for it that has not expired, the key still
  -- authenticates. The table of keys has one entry for each hash.
  pub failed_rotation_stale :
      (now : Time) (p : Principal) (ent : CacheEntry) (e : Error)
      → IsMap s.store.contents.api_keys
      → userspace_exists s.store.contents u ≡ true
      → (replace_userspace_api_key_hash w.env s.store u (hashed new)).0.1 ≡ err e
      → is_empty key ≡ false
      → bytes_eq (hashed new) (hashed key) ≡ false
      → resolve_api_key_hash s.store (hashed key) ≡ some p
      → in_space u p ≡ true
      → lookup s.auth.cache (api_key_entry (hashed key)) ≡ some ent
      → ltb ent.expires now ≡ false
      → (resolve_api_key_hash (rotate_to w id s u new).1.store (hashed key) ≡ none)
        × ((authenticate_api_key w.tokens now
              (rotate_to w id s u new).1.store
              (rotate_to w id s u new).1.auth
              key).0
            ≡ ok ent.principal)
  unfolding authenticate_api_key cached get_cache
  failed_rotation_stale now p ent e t there fails full other was mine cached_at fresh =
      let (same, stored) = failed_rotation there e fails in
      let rekeyed = replace_rekeys w.env s.store u (hashed new) t there in
      (
        rw stored (rekeyed.keys (hashed key) ∙ rw (other, was) (rw mine refl)),
        rw same (ground arith),
      )
