-- ===== src/Storage/Rekey.antt =====
-- Replacing the API keys of a userspace by one.
use httpkvdb.Base.{◌≡◌, true, some, [], if◌then◌else◌, arith}
use httpkvdb.Base.Bytes.{Bytes, codes, bytes_eq, bytes_eq_iff, bytes_key}
use httpkvdb.Base.Dict.{lookup, insert, delete_if, IsMap, unless, lookup-insert, lookup-delete_if}
use httpkvdb.Model.{Principal}
use httpkvdb.Storage.Snapshot.{Snapshot, ApiKeyRecord, get_from, userspace_exists}
use httpkvdb.Storage.Disk.{Env}
use httpkvdb.Storage.Store.{Store, save, get, get_tx}
use httpkvdb.Storage.Accounts.{
  in_space, principal_of, active_key, replace_userspace_api_key_hash, resolve_api_key_hash,
  resolve_jwt_subject, owner_of, ensure_space,
}

-- The principal of the new key.
abbrev pub new_owner : Snapshot → Bytes → Principal
new_owner d u = principal_of (owner_of u u d.api_keys) u (codes "user") (codes "apikey")

-- `s'` is `s` with `hash` as the only key of the userspace `u`.
pub record IsRekeyed {Doc : Type 0} (u hash : Bytes) (s s' : Store Doc) : Type 0 where
  pub keys :
      (h : Bytes)
      → resolve_api_key_hash s' h ≡ (
          if bytes_eq hash h
          then some (new_owner s.contents u)
          else unless (in_space u) (resolve_api_key_hash s h))
  pub subjects : (subject : Bytes) → resolve_jwt_subject s' subject ≡ resolve_jwt_subject s subject
  pub records : (u' key : Bytes) → get s' u' key ≡ get s u' key
  pub transactions : (tx_id : Bytes) → get_tx s' tx_id ≡ get_tx s tx_id

abbrev rekeyed : Snapshot → Bytes → Bytes → Snapshot
rekeyed d u hash = record d {
  userspaces = ensure_space d u;
  api_keys =
      insert (delete_if (λ rec. in_space u rec.principal) d.api_keys) hash
        (active_key hash (new_owner d u));
}

module _ {Doc : Type 0} (env : Env Doc) (s : Store Doc) (u hash : Bytes) where
  replaced :
      userspace_exists s.contents u ≡ true
      → (replace_userspace_api_key_hash env s u hash).1.contents ≡ rekeyed s.contents u hash
  unfolding replace_userspace_api_key_hash save
  replaced h = rw h

  module _ (s' : Store Doc) (is : s'.contents ≡ rekeyed s.contents u hash) where
    rekeyed-keys :
        IsMap s.contents.api_keys
        → (h : Bytes)
        → resolve_api_key_hash s' h ≡ (
            if bytes_eq hash h
            then some (new_owner s.contents u)
            else unless (in_space u) (resolve_api_key_hash s h))
    unfolding resolve_api_key_hash
    rekeyed-keys t h =
        let kept =
          delete_if (λ (rec : ApiKeyRecord). in_space u rec.principal) s.contents.api_keys in
        rw is (
          ground (
            arith,
            lookup-insert kept hash (active_key hash (new_owner s.contents u)) h,
            lookup-delete_if (λ rec. in_space u rec.principal) s.contents.api_keys h t,
          ))

    rekeyed-records : (u' key : Bytes) → get s' u' key ≡ get s u' key
    unfolding get get_from lookup
    rekeyed-records u' key =
        rw is (ground (arith, lookup-insert s.contents.userspaces u [] u', bytes_eq_iff u u'))

    rekeyed-subjects :
        (subject : Bytes) → resolve_jwt_subject s' subject ≡ resolve_jwt_subject s subject
    unfolding resolve_jwt_subject
    rekeyed-subjects subject = rw is

    rekeyed-transactions : (tx_id : Bytes) → get_tx s' tx_id ≡ get_tx s tx_id
    unfolding get_tx
    rekeyed-transactions tx_id = rw is

  -- After the key of an existing userspace is replaced, the new hash resolves to a plain user of
  -- it, every other key that resolved into it resolves no more, and the keys of the other
  -- userspaces, all subjects, records and transactions are as before. The table of keys has one
  -- entry for each hash.
  pub replace_rekeys :
      IsMap s.contents.api_keys
      → userspace_exists s.contents u ≡ true
      → IsRekeyed u hash s (replace_userspace_api_key_hash env s u hash).1
  replace_rekeys t x =
      let s' = (replace_userspace_api_key_hash env s u hash).1 in
      let is : s'.contents ≡ rekeyed s.contents u hash = replaced x in
      record {
        keys = rekeyed-keys s' is t;
        subjects = rekeyed-subjects s' is;
        records = rekeyed-records s' is;
        transactions = rekeyed-transactions s' is;
      }
