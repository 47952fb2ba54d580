-- ===== src/Storage/Records.antt =====
-- Reading back what was written: GET after PUT and after DELETE, in every userspace.
use httpkvdb.Base.{ℕ, ◌≡◌, Bool, ◌&&◌, if◌then◌else◌, arith, inl, inr}
use httpkvdb.Base.Bytes.{Bytes, bytes_eq, bytes_eq_iff, bytes_key}
use httpkvdb.Base.Dict.{lookup, insert, delete as delete_entry, lookup-insert, lookup-delete}
use httpkvdb.Golang.Crypto.{Std}
use httpkvdb.Model.{Time, KvRecord, Error, Result-cases, ok, err, not_found}
use httpkvdb.Storage.Snapshot.{
  Snapshot, Space, space_of, next_version, found, get_from, put_into, delete_from,
}

abbrev pub same_place : Bytes → Bytes → Bytes → Bytes → Bool
same_place u key u' key' = bytes_eq u u' && bytes_eq key key'

pub get_from-eq-found :
    (d : Snapshot) (u key : Bytes) → get_from d u key ≡ found (lookup (space_of d u) key)
unfolding get_from space_of lookup
get_from-eq-found d u key = ground arith

pub space_of-insert :
    (d : Snapshot) (u : Bytes) (space : Space) (v : ℕ) (u' : Bytes)
    → space_of (record d { version = v; userspaces = insert d.userspaces u space }) u'
      ≡ (if bytes_eq u u' then space else space_of d u')
unfolding space_of
space_of-insert d u space v u' = ground (arith, lookup-insert d.userspaces u space u')

pub get_from-put_into :
    (std : Std) (now : Time) (d : Snapshot) (u key value content_type u' key' : Bytes)
    → get_from (put_into std now d u key value content_type).1 u' key' ≡ (
        if same_place u key u' key'
        then ok (put_into std now d u key value content_type).0
        else get_from d u' key')
unfolding put_into
get_from-put_into std now d u key value content_type u' key' =
    simp (get_from-eq-found, space_of-insert)
      (ground (
        arith,
        bytes_eq_iff u u',
        lookup-insert (space_of d u) key (put_into std now d u key value content_type).0 key',
      ))

-- The only error of a read.
pub get_from-err :
    (d : Snapshot) (u key : Bytes) (e : Error) → get_from d u key ≡ err e → e ≡ not_found
unfolding get_from
get_from-err d u key e h = ground arith

pub delete_from_absent :
    (d : Snapshot) (u key : Bytes) (e : Error)
    → get_from d u key ≡ err e
    → delete_from d u key ≡ (err not_found, d)
unfolding delete_from
delete_from_absent d u key e h = rw (h, delete_from, get_from-err d u key e h)

abbrev deleted : Snapshot → Bytes → Bytes → Snapshot
deleted d u key = record d {
  version = next_version d.version;
  userspaces = insert d.userspaces u (delete_entry (space_of d u) key);
}

pub delete_from_present :
    (d : Snapshot) (u key : Bytes) (rec : KvRecord)
    → get_from d u key ≡ ok rec
    → delete_from d u key ≡ (ok (next_version d.version), deleted d u key)
unfolding delete_from
delete_from_present d u key rec h = rw (h, delete_from)

pub get_from-delete_from :
    (d : Snapshot) (u key u' key' : Bytes)
    → get_from (delete_from d u key).1 u' key'
      ≡ (if same_place u key u' key' then err not_found else get_from d u' key')
get_from-delete_from d u key u' key' = elim (Result-cases (get_from d u key)) [
  | inr (e, h) ↦
      rw (delete_from_absent d u key e h)
        (ground (arith, bytes_eq_iff u u', bytes_eq_iff key key', get_from-err d u key e h))
  | inl (rec, h) ↦ rw (delete_from_present d u key rec h) (
      simp (get_from-eq-found, space_of-insert)
        (ground (arith, bytes_eq_iff u u', lookup-delete (space_of d u) key key')))
]
