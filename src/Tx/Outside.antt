-- ===== src/Tx/Outside.antt =====
-- What a request of one userspace leaves alone: the data of the others, and the credentials.
use httpkvdb.Base.{
  ◌≡◌, refl, sym, ◌∙◌, true, false, not, ◌&&◌, some, List, [], ◌⊎◌, inl, inr, Bool-cases,
  Option-cases,
}
use httpkvdb.Base.Bytes.{Bytes, bytes_eq, is_empty}
use httpkvdb.Golang.Crypto.{Std}
use httpkvdb.Model.{Time, KvRecord, Transaction, ImportMode, Result-cases}
use httpkvdb.Storage.Snapshot.{Snapshot, get_from, delete_from, import_into}
use httpkvdb.Storage.Records.{get_from-eq-found, space_of-insert}
use httpkvdb.Storage.Disk.{Env}
use httpkvdb.Storage.Store.{Store, save, save_tx, get_tx}
use httpkvdb.Storage.Store
use httpkvdb.Storage.Atomic.{AtomicTx, clone_snapshot, begin_atomic, import_store, commit}
use httpkvdb.Storage.Atomic
use httpkvdb.Tx.Digest.{digest}
use httpkvdb.Tx.Execute.{Ending, finished, stopped, all_seqs, conclude, execute}
use httpkvdb.Tx.Frame.{
  IsFrame, EndingFrames, other_space, put_into-IsFrame, delete_from-IsFrame, run_ops-EndingFrames,
}

-- `d'` is `d` outside of the userspace `u`, but for the transactions and the version.
pub record IsOutside (u : Bytes) (d d' : Snapshot) : Type 0 where
  pub others : (u' key : Bytes) → (bytes_eq u u' ≡ true) ⊎ (get_from d' u' key ≡ get_from d u' key)
  pub keys : d'.api_keys ≡ d.api_keys
  pub subjects : d'.jwt_subjects ≡ d.jwt_subjects

pub IsOutside-refl : (u : Bytes) (d : Snapshot) → IsOutside u d d
IsOutside-refl u d = record { others = λ u' key. inr refl; keys = refl; subjects = refl }

pub IsOutside-trans :
    (u : Bytes) {d d' d'' : Snapshot} → IsOutside u d d' → IsOutside u d' d'' → IsOutside u d d''
IsOutside-trans u f g = record {
  others = λ u' key. elim (f.others u' key) [
    | inl same ↦ inl same
    | inr p ↦ elim (g.others u' key) [ inl same ↦ inl same | inr q ↦ inr (q ∙ p) ]
  ];
  keys = g.keys ∙ f.keys;
  subjects = g.subjects ∙ f.subjects;
}

IsFrame-IsOutside : (u : Bytes) (d d' : Snapshot) → IsFrame u d d' → IsOutside u d d'
IsFrame-IsOutside u d d' f = record { others = f.others; keys = f.keys; subjects = f.subjects }

-- A JSON copy of the data that is made is the data.
abbrev pub IsFaithful : {Doc : Type 0} → Env Doc → Store Doc → Type 0
IsFaithful env s = (d : Snapshot) → clone_snapshot env.json s.contents ≡ some d → d ≡ s.contents

get_from-import_into :
    (std : Std) (now : Time) (u : Bytes) (mode : ImportMode) (d : Snapshot)
    (records : List KvRecord) (u' key : Bytes)
    → bytes_eq u u' ≡ false
    → get_from (import_into std now u mode d records).1 u' key ≡ get_from d u' key
unfolding import_into
get_from-import_into std now u mode d records u' key h =
    get_from-eq-found _ u' key ∙ rw (space_of-insert, h) (sym (get_from-eq-found d u' key))

import_into-IsOutside :
    (std : Std) (now : Time) (u : Bytes) (mode : ImportMode) (d : Snapshot)
    (records : List KvRecord)
    → IsOutside u d (import_into std now u mode d records).1
import_into-IsOutside std now u mode d records = record {
  others = λ u' key. other_space u u' (λ h. get_from-import_into std now u mode d records u' key h);
  keys = unfold import_into in refl;
  subjects = unfold import_into in refl;
}

module _ {Doc : Type 0} (env : Env Doc) (u : Bytes) (s : Store Doc) where
  abbrev pub Keeps : Store Doc → Type 0
  Keeps s' = IsOutside u s.contents s'.contents

  pub Keeps-refl : Keeps s
  Keeps-refl = IsOutside-refl u s.contents

  pub Keeps-put :
      (key value content_type : Bytes) → Keeps (Store.put env s u key value content_type).1
  unfolding Store.put save
  Keeps-put key value content_type =
      IsFrame-IsOutside u _ _ (put_into-IsFrame env.std env.now s.contents u key value content_type)

  pub Keeps-delete : (key : Bytes) → Keeps (Store.delete env s u key).1
  unfolding Store.delete save
  Keeps-delete key = elim (Result-cases (delete_from s.contents u key).0) [
    | inl (version, h) ↦
        rw (h, Store.delete)
          (unfold save in IsFrame-IsOutside u _ _ (delete_from-IsFrame s.contents u key))
    | inr (e, h) ↦ rw (h, Store.delete) (IsOutside-refl u s.contents)
  ]

  pub Keeps-save_tx : (t : Transaction) → Keeps (save_tx env s t).1
  unfolding save_tx save
  Keeps-save_tx t = record {
    others = λ u' key. inr (unfold get_from in refl);
    keys = refl;
    subjects = refl;
  }

  pub Keeps-import_store :
      (records : List KvRecord) (mode : ImportMode)
      → IsFaithful env s
      → Keeps (import_store env s u records mode).1
  unfolding import_store
  Keeps-import_store records mode faithful =
      elim (Option-cases (clone_snapshot env.json s.contents)) [
        | inl c ↦ rw (c, import_store, begin_atomic) (IsOutside-refl u s.contents)
        | inr (d, c) ↦
            rw (c, import_store, begin_atomic)
              (rw (faithful d c)
                (unfold save in import_into-IsOutside env.std env.now u mode s.contents records))
      ]

module _ {Doc : Type 0} (env : Env Doc) (t : Transaction) where
  Keeps-conclude :
      (s : Store Doc) (e : Ending)
      → EndingFrames t.userspace_id (record { contents = s.contents; closed = false }) e
      → Keeps env t.userspace_id s (conclude env t s e).1
  unfolding conclude commit Atomic.save_tx save
  Keeps-conclude s (stopped results reason e) f = Keeps-save_tx env t.userspace_id s _
  Keeps-conclude s (finished results atx) (f, o) =
      rw (o, conclude, commit, Atomic.save_tx)
        (record {
          others = λ u' key. unfold get_from in f.others u' key;
          keys = f.keys;
          subjects = f.subjects;
        })

  pub Keeps-execute :
      (s : Store Doc) → IsFaithful env s → Keeps env t.userspace_id s (execute env t s).1
  unfolding execute begin_atomic
  Keeps-execute s faithful =
      elim (Bool-cases
        (not (is_empty t.tx_digest) && not (bytes_eq t.tx_digest (digest env.std t)))) [
          | inl m ↦ rw (m, execute) (Keeps-save_tx env t.userspace_id s _)
          | inr m ↦ elim (Option-cases (clone_snapshot env.json s.contents)) [
            | inl c ↦ rw (m, execute, c, begin_atomic) (IsOutside-refl t.userspace_id s.contents)
            | inr (d, c) ↦
                rw (m, execute, c, begin_atomic)
                  (rw (faithful d c)
                    (Keeps-conclude s _ (run_ops-EndingFrames env t (all_seqs t) [] _)))
          ]
        ]
