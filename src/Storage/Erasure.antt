-- ===== src/Storage/Erasure.antt =====
-- Deleting a userspace.
use httpkvdb.Base.{◌≡◌, true, false, if◌then◌else◌, ◌⊎◌, arith, Bool-cases, inl, inr}
use httpkvdb.Base.Bytes.{Bytes, bytes_eq, bytes_eq_iff, bytes_key}
use httpkvdb.Base.Dict.{member, IsMap, unless, lookup-delete, lookup-delete_if, any_value-delete_if}
use httpkvdb.Model.{Transaction, Result, ok, err, not_found, tx_not_found}
use httpkvdb.Storage.Snapshot.{Snapshot, get_from, userspace_exists}
use httpkvdb.Storage.Disk.{Env}
use httpkvdb.Storage.Store.{Store, save, get, get_tx}
use httpkvdb.Storage.Accounts.{
  in_space, without_userspace, delete_userspace, resolve_api_key_hash, resolve_jwt_subject,
}

-- The tables are Go maps: one entry for each key.
pub record HasTables (d : Snapshot) : Type 0 where
  pub keys : IsMap d.api_keys
  pub subjects : IsMap d.jwt_subjects
  pub transactions : IsMap d.txs

-- A transaction, unless it belongs to the userspace.
abbrev pub tx_unless : Bytes → Result Transaction → Result Transaction
tx_unless u (ok tx) = if bytes_eq tx.userspace_id u then err tx_not_found else ok tx
tx_unless u (err e) = err e

-- What a client can see of a store `s'` that is `s` without the userspace `u`.
pub record IsWithout {Doc : Type 0} (u : Bytes) (s s' : Store Doc) : Type 0 where
  pub gone : userspace_exists s'.contents u ≡ false
  pub records :
      (u' key : Bytes) → get s' u' key ≡ (if bytes_eq u u' then err not_found else get s u' key)
  pub keys :
      (hash : Bytes)
      → resolve_api_key_hash s' hash ≡ unless (in_space u) (resolve_api_key_hash s hash)
  pub subjects :
      (subject : Bytes)
      → resolve_jwt_subject s' subject ≡ unless (in_space u) (resolve_jwt_subject s subject)
  pub transactions : (tx_id : Bytes) → get_tx s' tx_id ≡ tx_unless u (get_tx s tx_id)

module _ {Doc : Type 0} (env : Env Doc) (s : Store Doc) (u : Bytes) where
  delete_userspace_found :
      userspace_exists s.contents u ≡ true
      → (delete_userspace env s u).1.contents ≡ without_userspace s.contents u
  unfolding delete_userspace save
  delete_userspace_found h = rw h

  without-gone : userspace_exists (without_userspace s.contents u) u ≡ false
  unfolding userspace_exists without_userspace member
  without-gone = ground (
    arith,
    lookup-delete s.contents.userspaces u u,
    bytes_eq_iff u u,
    any_value-delete_if (λ rec. in_space u rec.principal) s.contents.api_keys,
    any_value-delete_if (λ rec. in_space u rec.principal) s.contents.jwt_subjects,
  )

  module _ (s' : Store Doc) (is : s'.contents ≡ without_userspace s.contents u) where
    without-records :
        (u' key : Bytes) → get s' u' key ≡ (if bytes_eq u u' then err not_found else get s u' key)
    unfolding get get_from without_userspace
    without-records u' key =
        rw is (ground (arith, lookup-delete s.contents.userspaces u u', bytes_eq_iff u u'))

    without-keys :
        IsMap s.contents.api_keys
        → (hash : Bytes)
        → resolve_api_key_hash s' hash ≡ unless (in_space u) (resolve_api_key_hash s hash)
    unfolding resolve_api_key_hash without_userspace
    without-keys h hash = rw is (
        ground
          (arith, lookup-delete_if (λ rec. in_space u rec.principal) s.contents.api_keys hash h))

    without-subjects :
        IsMap s.contents.jwt_subjects
        → (subject : Bytes)
        → resolve_jwt_subject s' subject ≡ unless (in_space u) (resolve_jwt_subject s subject)
    unfolding resolve_jwt_subject without_userspace
    without-subjects h subject = rw is (
        ground (
          arith,
          lookup-delete_if (λ rec. in_space u rec.principal) s.contents.jwt_subjects subject h,
        ))

    without-transactions :
        IsMap s.contents.txs → (tx_id : Bytes) → get_tx s' tx_id ≡ tx_unless u (get_tx s tx_id)
    unfolding get_tx without_userspace
    without-transactions h tx_id =
        rw is (
          ground
            (arith, lookup-delete_if (λ tx. bytes_eq tx.userspace_id u) s.contents.txs tx_id h))

  -- Deleting a userspace that exists leaves nothing of it, also if the files fail: it does not
  -- exist any more, no key of it reads, no API key or subject resolves into it, none of its
  -- transactions is found, and all that belongs to other userspaces reads as before. Deleting
  -- one that does not exist is an error and changes nothing. The tables have one entry for each
  -- key.
  pub delete_userspace_erases :
      HasTables s.contents
      → ((userspace_exists s.contents u ≡ true) × IsWithout u s (delete_userspace env s u).1)
        ⊎ ((userspace_exists s.contents u ≡ false)
            × (delete_userspace env s u ≡ (err not_found, s)))
  delete_userspace_erases t = elim (Bool-cases (userspace_exists s.contents u)) [
    | inl h ↦ inl (h, found h)
    | inr h ↦ inr (h, absent h)
  ]
    where
      found : userspace_exists s.contents u ≡ true → IsWithout u s (delete_userspace env s u).1
      found h =
          let s' = (delete_userspace env s u).1 in
          let is : s'.contents ≡ without_userspace s.contents u = delete_userspace_found h in
          record {
            gone = rw is without-gone;
            records = without-records s' is;
            keys = without-keys s' is t.keys;
            subjects = without-subjects s' is t.subjects;
            transactions = without-transactions s' is t.transactions;
          }

      absent : userspace_exists s.contents u ≡ false → delete_userspace env s u ≡ (err not_found, s)
      absent h = unfold delete_userspace in rw (h, delete_userspace)
