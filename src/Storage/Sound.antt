-- ===== src/Storage/Sound.antt =====
-- What the data of the store always is, and that the functions on it keep this.
pub mod Methods
use httpkvdb.Base.{
  ℕ, ◌&&◌, ◌≡◌, refl, none, some, List, [], ◌∷◌, arith, inl, inr, Bool-cases, Option-cases,
}
use httpkvdb.Base.Bytes.{Bytes, bytes_key}
use httpkvdb.Base.Dict.{lookup, insert, delete, member}
use httpkvdb.Base.Table.{IsTable, IsTable-insert, IsTable-delete, IsTable-lookup}
use httpkvdb.Golang.Crypto.{Std}
use httpkvdb.Model.{
  Time, KvRecord, Transaction, ImportMode, replace, merge_overwrite, merge_skip, Result-cases,
}
use httpkvdb.Validate.{value_type, checksum}
use httpkvdb.Storage.Snapshot.{
  ApiKeyRecord, JwtSubjectRecord, Space, Snapshot, empty_snapshot, or_empty, space_of, put_into,
  delete_from, Importing, is_skip, import_record, import_records, import_into, start_space,
  next_version, get_from, imported_record,
}

-- A record stands under its key in its userspace, with the checksum and the type of its value.
pub record IsRecord (std : Std) (u key : Bytes) (rec : KvRecord) : Type 0 where
  pub userspace : rec.userspace_id ≡ u
  pub name : rec.key ≡ key
  pub sum : rec.checksum ≡ checksum std rec.value
  pub kind : rec.value_type ≡ value_type rec.content_type

abbrev pub IsSpace : Std → Bytes → Space → Type 0
IsSpace std u space = IsTable (IsRecord std u) space

abbrev pub IsKey : Bytes → ApiKeyRecord → Type 0
IsKey hash rec = rec.hash ≡ hash

abbrev pub IsSubject : Bytes → JwtSubjectRecord → Type 0
IsSubject subject rec = rec.subject ≡ subject

abbrev pub IsTx : Bytes → Transaction → Type 0
IsTx tx_id t = t.tx_id ≡ tx_id

-- Every table has one entry for each key, and every entry stands under its own name.
pub record IsSound (std : Std) (d : Snapshot) : Type 0 where
  pub spaces : IsTable (IsSpace std) d.userspaces
  pub keys : IsTable IsKey d.api_keys
  pub subjects : IsTable IsSubject d.jwt_subjects
  pub transactions : IsTable IsTx d.txs

pub empty-IsSound : (std : Std) → IsSound std empty_snapshot
empty-IsSound std = record {
  spaces = (tt, tt);
  keys = (tt, tt);
  subjects = (tt, tt);
  transactions = (tt, tt);
}

module _ (std : Std) (d : Snapshot) (sound : IsSound std d) where
  pub space_of-IsSpace : (u : Bytes) → IsSpace std u (space_of d u)
  unfolding space_of
  space_of-IsSpace u = elim (Option-cases (lookup d.userspaces u)) [
    | inl h ↦ rw h (tt, tt)
    | inr (space, h) ↦ rw h (IsTable-lookup (IsSpace std) d.userspaces u space sound.spaces h)
  ]

  -- The data with another space under `u`.
  with_space-IsSound :
      (version : ℕ) (u : Bytes) (space : Space)
      → IsSpace std u space
      → IsSound std (record d { version = version; userspaces = insert d.userspaces u space })
  with_space-IsSound version u space h = record {
    spaces = IsTable-insert (IsSpace std) d.userspaces u space sound.spaces h;
    keys = sound.keys;
    subjects = sound.subjects;
    transactions = sound.transactions;
  }

  pub put_into-IsSound :
      (now : Time) (u key value content_type : Bytes)
      → IsSound std (put_into std now d u key value content_type).1
  unfolding put_into
  put_into-IsSound now u key value content_type = with_space-IsSound _ u _ (
      IsTable-insert (IsRecord std u) (space_of d u) key _ (space_of-IsSpace u)
        (record { userspace = refl; name = refl; sum = refl; kind = refl }))

  pub delete_from-IsSound : (u key : Bytes) → IsSound std (delete_from d u key).1
  unfolding delete_from
  delete_from-IsSound u key =
      let gone =
        with_space-IsSound (next_version d.version) u (delete (space_of d u) key)
          (IsTable-delete (IsRecord std u) (space_of d u) key (space_of-IsSpace u)) in
      elim (Result-cases (get_from d u key)) [
        | inl (rec, h) ↦ rw (h, delete_from) gone
        | inr (e, h) ↦ rw (h, delete_from) sound
      ]

  pub with_tx-IsSound : (t : Transaction) → IsSound std (record d { txs = insert d.txs t.tx_id t })
  with_tx-IsSound t = record {
    spaces = sound.spaces;
    keys = sound.keys;
    subjects = sound.subjects;
    transactions = IsTable-insert IsTx d.txs t.tx_id t sound.transactions refl;
  }

  module _ (now : Time) (u : Bytes) (mode : ImportMode) where
    import_record-IsSpace :
        (s : Importing) (rec : KvRecord)
        → IsSpace std u s.space
        → IsSpace std u (import_record std now u mode s rec).space
    unfolding import_record
    import_record-IsSpace s rec h =
        let new =
          IsTable-insert (IsRecord std u) s.space rec.key
            (imported_record std now u mode (next_version s.version) rec) h
            (unfold imported_record in
              record { userspace = refl; name = refl; sum = refl; kind = refl }) in
        elim (Bool-cases (member s.space rec.key && is_skip mode)) [
          | inl y ↦ rw y h
          | inr n ↦ rw n new
        ]

    import_records-IsSpace :
        (s : Importing) (records : List KvRecord)
        → IsSpace std u s.space
        → IsSpace std u (import_records std now u mode s records).space
    unfolding import_records
    import_records-IsSpace s [] h = h
    import_records-IsSpace s (rec ∷ records) h =
        import_records-IsSpace (import_record std now u mode s rec) records
          (import_record-IsSpace s rec h)

    start-IsSpace : (m : ImportMode) → IsSpace std u (start_space std now u mode m (space_of d u))
    start-IsSpace replace = (tt, tt)
    start-IsSpace merge_overwrite = space_of-IsSpace u
    start-IsSpace merge_skip = space_of-IsSpace u

    pub import_into-IsSound :
        (records : List KvRecord) → IsSound std (import_into std now u mode d records).1
    unfolding import_into
    import_into-IsSound records =
        with_space-IsSound _ u _ (import_records-IsSpace _ records (start-IsSpace mode))
