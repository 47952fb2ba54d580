-- ===== src/Storage/Sound/Methods.antt =====
-- The methods of Store on records, accounts and transactions keep the data sound.
use httpkvdb.Base.{◌||◌, refl, List, [], arith, inl, inr, Bool-cases, Option-cases, if◌then◌else◌}
use httpkvdb.Base.Bytes.{Bytes, bytes_eq, bytes_key, codes, is_empty}
use httpkvdb.Base.Dict.{lookup, insert, delete_if, member}
use httpkvdb.Base.Table.{IsTable, IsTable-insert, IsTable-delete, IsTable-delete_if}
use httpkvdb.Model.{Principal, Transaction, KvRecord, ImportMode, Result-cases}
use httpkvdb.Storage.Snapshot.{Snapshot, userspace_exists, delete_from}
use httpkvdb.Storage.Disk.{Env}
use httpkvdb.Storage.Store.{Store, save, save_tx}
use httpkvdb.Storage.Store
use httpkvdb.Storage.Atomic.{clone_snapshot, begin_atomic, import_store}
use httpkvdb.Storage.Accounts.{
  in_space, active_key, active_subject, principal_of, ensure_space, boot_space, boot_key,
  boot_subject, owner_of, without_userspace, bootstrap, create_userspace, delete_userspace,
  replace_userspace_api_key_hash,
}
use httpkvdb.Storage.Sound.{
  IsSpace, IsKey, IsSubject, IsTx, IsSound, put_into-IsSound, delete_from-IsSound, with_tx-IsSound,
  import_into-IsSound,
}
use httpkvdb.Tx.Outside.{IsFaithful}

module _ {Doc : Type 0} (env : Env Doc) where
  abbrev pub Holds : Store Doc → Type 0
  Holds s = IsSound env.std s.contents

  module _ (s : Store Doc) (sound : Holds s) where
    pub put-Holds : (u key value ct : Bytes) → Holds (Store.put env s u key value ct).1
    unfolding Store.put save
    put-Holds u key value ct = put_into-IsSound env.std s.contents sound env.now u key value ct

    pub delete-Holds : (u key : Bytes) → Holds (Store.delete env s u key).1
    unfolding Store.delete save
    delete-Holds u key = elim (Result-cases (delete_from s.contents u key).0) [
      | inl (version, h) ↦
          rw (h, Store.delete) (unfold save in delete_from-IsSound env.std s.contents sound u key)
      | inr (e, h) ↦ rw (h, Store.delete) sound
    ]

    pub save_tx-Holds : (t : Transaction) → Holds (save_tx env s t).1
    unfolding save_tx save
    save_tx-Holds t = with_tx-IsSound env.std s.contents sound t

    pub import_store-Holds :
        (u : Bytes) (records : List KvRecord) (mode : ImportMode)
        → IsFaithful env s
        → Holds (import_store env s u records mode).1
    unfolding import_store
    import_store-Holds u records mode faithful =
        elim (Option-cases (clone_snapshot env.json s.contents)) [
          | inl c ↦ rw (c, import_store, begin_atomic) sound
          | inr (d, c) ↦
              rw (c, import_store, begin_atomic)
                (rw (faithful d c) (
                  unfold save in
                  import_into-IsSound env.std s.contents sound env.now u mode records))
        ]

    with_key-IsSound :
        (d : Snapshot) (hash : Bytes) (p : Principal)
        → IsSound env.std d
        → IsSound env.std (record d { api_keys = insert d.api_keys hash (active_key hash p) })
    with_key-IsSound d hash p h = record {
      spaces = h.spaces;
      keys = IsTable-insert IsKey d.api_keys hash (active_key hash p) h.keys refl;
      subjects = h.subjects;
      transactions = h.transactions;
    }

    with_empty-IsSound :
        (d : Snapshot) (u : Bytes)
        → IsSound env.std d
        → IsSound env.std (record d { userspaces = insert d.userspaces u [] })
    with_empty-IsSound d u h = record {
      spaces = IsTable-insert (IsSpace env.std) d.userspaces u [] h.spaces (tt, tt);
      keys = h.keys;
      subjects = h.subjects;
      transactions = h.transactions;
    }

    without-IsSound :
        (d : Snapshot) (u : Bytes) → IsSound env.std d → IsSound env.std (without_userspace d u)
    unfolding without_userspace
    without-IsSound d u h = record {
      spaces = IsTable-delete (IsSpace env.std) d.userspaces u h.spaces;
      keys = IsTable-delete_if IsKey (λ rec. in_space u rec.principal) d.api_keys h.keys;
      subjects =
          IsTable-delete_if IsSubject (λ rec. in_space u rec.principal) d.jwt_subjects h.subjects;
      transactions = IsTable-delete_if IsTx (λ tx. bytes_eq tx.userspace_id u) d.txs h.transactions;
    }

    pub create_userspace-Holds :
        (u user_id hash : Bytes) → Holds (create_userspace env s u user_id hash).1
    unfolding create_userspace save
    create_userspace-Holds u user_id hash =
        let fresh = with_empty-IsSound s.contents u sound in
        let d : Snapshot =
          let d = s.contents in record d { userspaces = insert d.userspaces u [] } in
        let p =
          principal_of (if is_empty user_id then u else user_id) u (codes "user")
            (codes "apikey") in
        ground (arith, sound, fresh, with_key-IsSound d hash p fresh)

    pub delete_userspace-Holds : (u : Bytes) → Holds (delete_userspace env s u).1
    unfolding delete_userspace save
    delete_userspace-Holds u = elim (Bool-cases (userspace_exists s.contents u)) [
      | inl y ↦ rw (y, delete_userspace) (unfold save in without-IsSound s.contents u sound)
      | inr n ↦ rw (n, delete_userspace) sound
    ]

    ensured : (u : Bytes) → IsTable (IsSpace env.std) (ensure_space s.contents u)
    ensured u = elim (Option-cases (lookup s.contents.userspaces u)) [
      | inl h ↦ rw (h, ensure_space) (with_empty-IsSound s.contents u sound).spaces
      | inr (space, h) ↦ rw (h, ensure_space) sound.spaces
    ]

    pub rotate-Holds : (u hash : Bytes) → Holds (replace_userspace_api_key_hash env s u hash).1
    unfolding replace_userspace_api_key_hash save
    rotate-Holds u hash =
        let keys = delete_if (λ rec. in_space u rec.principal) s.contents.api_keys in
        let p = principal_of (owner_of u u s.contents.api_keys) u (codes "user") (codes "apikey") in
        elim (Bool-cases (userspace_exists s.contents u)) [
          | inr n ↦ rw (n, replace_userspace_api_key_hash) sound
          | inl y ↦
              rw (y, replace_userspace_api_key_hash)
                (unfold save in
                  record {
                    spaces = ensured u;
                    keys =
                        IsTable-insert IsKey keys hash (active_key hash p)
                          (IsTable-delete_if IsKey _ s.contents.api_keys sound.keys) refl;
                    subjects = sound.subjects;
                    transactions = sound.transactions;
                  })
        ]

    boot_space-IsSound : (u : Bytes) → IsSound env.std (boot_space u s.contents).0
    boot_space-IsSound u = elim (Option-cases (lookup s.contents.userspaces u)) [
      | inl h ↦ rw (h, boot_space) (with_empty-IsSound s.contents u sound)
      | inr (space, h) ↦ rw (h, boot_space) sound
    ]

    boot_key-IsSound :
        (d : Snapshot) (user_id u hash : Bytes)
        → IsSound env.std d
        → IsSound env.std (boot_key user_id u hash d).0
    boot_key-IsSound d user_id u hash h =
        elim (Bool-cases (is_empty hash || member d.api_keys hash)) [
          | inl y ↦ rw y h
          | inr n ↦ rw n (with_key-IsSound d hash _ h)
        ]

    boot_subject-IsSound :
        (d : Snapshot) (user_id u : Bytes)
        → IsSound env.std d
        → IsSound env.std (boot_subject user_id u d).0
    boot_subject-IsSound d user_id u h =
        let p = principal_of user_id u (codes "admin") (codes "jwt") in
        elim (Bool-cases (member d.jwt_subjects user_id)) [
          | inl y ↦ rw y h
          | inr n ↦ rw n (record {
            spaces = h.spaces;
            keys = h.keys;
            subjects =
                IsTable-insert IsSubject d.jwt_subjects user_id (active_subject user_id p)
                  h.subjects refl;
            transactions = h.transactions;
          })
        ]

    pub bootstrap-Holds : (user_id u hash : Bytes) → Holds (bootstrap env s user_id u hash).1
    unfolding bootstrap save
    bootstrap-Holds user_id u hash =
        let booted =
          boot_subject-IsSound _ user_id u
            (boot_key-IsSound _ user_id u hash (boot_space-IsSound u)) in
        ground (arith, sound, booted)
