-- ===== src/Http/Rotation.antt =====
-- Replacing the API key of a userspace over HTTP.
use httpkvdb.Base.{◌≡◌, refl, sym, ◌∙◌, true, some, if◌then◌else◌, arith}
use mathlib.Core.Path.{subst}
use httpkvdb.Base.Bytes.{Bytes, bytes_eq, bytes_key, is_empty}
use httpkvdb.Base.Dict.{IsMap, unless}
use httpkvdb.Model.{Result, Time, Principal, err, unauthorized}
use httpkvdb.Storage.Snapshot.{userspace_exists}
use httpkvdb.Storage.Accounts.{in_space, replace_userspace_api_key_hash, resolve_api_key_hash}
use httpkvdb.Storage.Rekey.{IsRekeyed, new_owner, replace_rekeys}
use httpkvdb.Auth.Token.{api_key_hash, or_unauthorized}
use httpkvdb.Auth.Authenticator.{invalidate, authenticate_request}
use httpkvdb.Auth.Coherent.{IsCoherent, IsCoherent-empty}
use httpkvdb.Auth.Refines.{api_key, bearer, credential_of, authenticate_request_refines}
use httpkvdb.Http.Server.{Server, World}
use httpkvdb.Http.Admin.{new_api_key, rotate_to, handle_rotate}

module _ {Doc : Type 0} (w : World Doc) (id : Bytes) (s : Server Doc) (u : Bytes) where
  -- The hash of a key that a request shows.
  abbrev hash_of : Bytes → Bytes
  hash_of key = api_key_hash w.tokens key s.auth.api_key_pepper

  -- Who shows a key after the rotation to `new`.
  abbrev pub bearer_after : Bytes → Bytes → Result Principal
  bearer_after new key =
      if is_empty key
      then err unauthorized
      else or_unauthorized (
          if bytes_eq (hash_of new) (hash_of key)
          then some (new_owner s.store.contents u)
          else unless (in_space u) (resolve_api_key_hash s.store (hash_of key)))

  success :
      (new : Bytes)
      → (rotate_to w id s u new).0.status ≡ 200
      → (userspace_exists s.store.contents u ≡ true)
        × ((rotate_to w id s u new).1.store
            ≡ (replace_userspace_api_key_hash w.env s.store u (hash_of new)).1)
        × ((rotate_to w id s u new).1.auth ≡ invalidate s.auth)
  unfolding rotate_to replace_userspace_api_key_hash
  success new h = ground arith

  module _ (new : Bytes) (s' : Server Doc) (rekeyed : IsRekeyed u (hash_of new) s.store s'.store)
      (fresh : s'.auth ≡ invalidate s.auth) where
    -- The answer to a request that shows a key.
    answer :
        (now : Time) (header : Bytes → Bytes) (key : Bytes)
        → credential_of header ≡ api_key key
        → (authenticate_request w.tokens now s'.store s'.auth header).0 ≡ bearer_after new key
    unfolding bearer invalidate
    answer now header key shows =
        let coh : IsCoherent s'.store s'.auth.cache =
          rw fresh (unfold invalidate in IsCoherent-empty s'.store) in
        (authenticate_request_refines w.tokens now s'.store s'.auth header coh).0
        ∙ rw (shows, fresh) (rw (sym (rekeyed.keys (hash_of key))) refl)

  -- After a rotation that answers 200, at any later time and whatever was in the cache: a
  -- request that shows the new key, if that is not empty, is from a plain user of the userspace,
  -- one that shows any other key that was one of the userspace is unauthorized, and the keys of
  -- other userspaces are what they were. The table of keys has one entry for each hash.
  pub rotate_revokes :
      (new key : Bytes) (now : Time) (header : Bytes → Bytes)
      → IsMap s.store.contents.api_keys
      → new_api_key w id ≡ some new
      → (handle_rotate w id s u).0.status ≡ 200
      → credential_of header ≡ api_key key
      → (let s' = (handle_rotate w id s u).1 in
          (authenticate_request w.tokens now s'.store s'.auth header).0 ≡ bearer_after new key)
  unfolding handle_rotate
  rotate_revokes new key now header t drawn h shows =
      let (there, stored, fresh) = success new (rw (drawn, handle_rotate) at h) in
      let s' = (rotate_to w id s u new).1 in
      let rekeyed =
        subst (λ x. IsRekeyed u (hash_of new) s.store x) (sym stored)
          (replace_rekeys w.env s.store u (hash_of new) t there) in
      rw (drawn, handle_rotate) (answer new s' rekeyed fresh now header key shows)
