-- ===== src/Storage/Operations.antt =====
-- Put, Get and Delete of the store, whatever the files do.
use httpkvdb.Base.{◌≡◌, refl, Option, none, some, if◌then◌else◌, ◌⊎◌, arith, inl, inr}
use httpkvdb.Base.Bytes.{Bytes, bytes_key}
use httpkvdb.Model.{Time, KvRecord, Error, Result, Result-cases, ok, err, not_found}
use httpkvdb.Validate.{value_type, checksum}
use httpkvdb.Storage.Snapshot.{next_version, created_or, found, put_into, delete_from}
use httpkvdb.Storage.Records.{
  same_place, get_from-put_into, get_from-eq-found, get_from-delete_from, delete_from_absent,
  delete_from_present,
}
use httpkvdb.Storage.Disk.{Env}
use httpkvdb.Storage.Store.{Store, save, get, put, delete}

-- When the record that is read was created, or now.
abbrev pub created_from : Time → Result KvRecord → Time
created_from now (ok old) = old.created_at
created_from now (err e) = now

created-from : (now : Time) (o : Option KvRecord) → created_or now o ≡ created_from now (found o)
created-from now none = refl
created-from now (some old) = refl

module _ {Doc : Type 0} (env : Env Doc) (s : Store Doc) (u key : Bytes) where
  put-contents :
      (value content_type : Bytes)
      → (put env s u key value content_type).1.contents
        ≡ (put_into env.std env.now s.contents u key value content_type).1
  unfolding put save
  put-contents value content_type = refl

  -- After a PUT, and also after one whose files failed, a read of that key in that userspace
  -- gives the value and its content type, with the next version, the type, the checksum and the
  -- time that belong to them, and created when the key was; any other key reads as before.
  pub get-put :
      (value content_type u' key' : Bytes)
      → get (put env s u key value content_type).1 u' key' ≡ (
          if same_place u key u' key'
          then ok (record {
            userspace_id = u;
            key = key;
            value = value;
            content_type = content_type;
            value_type = value_type content_type;
            version = next_version s.contents.version;
            created_at = created_from env.now (get s u key);
            updated_at = env.now;
            checksum = checksum env.std value;
          })
          else get s u' key')
  unfolding get
  get-put value content_type u' key' =
      rw (put-contents value content_type, get_from-put_into)
        (unfold put_into in rw (created-from, get_from-eq-found s.contents u key) refl)

  delete_absent : (e : Error) → get s u key ≡ err e → delete env s u key ≡ (err not_found, s)
  unfolding get delete
  delete_absent e h = rw (delete_from_absent s.contents u key e h, delete)

  delete_present :
      (rec : KvRecord)
      → get s u key ≡ ok rec
      → (delete env s u key).1.contents ≡ (delete_from s.contents u key).1
  unfolding get delete save
  delete_present rec h = ground (arith, delete_from_present s.contents u key rec h)

  -- A DELETE of a key that is not there changes nothing and says so. After any DELETE that key
  -- reads as not found, and any other reads as before.
  pub get-delete :
      (((rec : KvRecord) × (get s u key ≡ ok rec)) ⊎ (delete env s u key ≡ (err not_found, s)))
      × ((u' key' : Bytes)
          → get (delete env s u key).1 u' key'
            ≡ (if same_place u key u' key' then err not_found else get s u' key'))
  get-delete = (first, λ u' key'. read u' key')
    where
      first :
          ((rec : KvRecord) × (get s u key ≡ ok rec)) ⊎ (delete env s u key ≡ (err not_found, s))
      first = elim (Result-cases (get s u key)) [
        | inl found ↦ inl found
        | inr (e, h) ↦ inr (delete_absent e h)
      ]

      read :
          (u' key' : Bytes)
          → get (delete env s u key).1 u' key'
            ≡ (if same_place u key u' key' then err not_found else get s u' key')
      read u' key' = elim (Result-cases (get s u key)) [
        | inl (rec, h) ↦
            unfold get in rw (delete_present rec h) (get_from-delete_from s.contents u key u' key')
        | inr (e, h) ↦
            unfold get in
            rw (delete_absent e h) (
              rw (delete_from_absent s.contents u key e h) at
                (get_from-delete_from s.contents u key u' key'))
      ]
