-- ===== src/Tx/Frame.antt =====
-- What the loop of `execute` leaves alone.
use httpkvdb.Base.{◌≡◌, refl, ◌∙◌, true, false, List, arith, inl, inr, ◌⊎◌, Bool-cases}
use httpkvdb.Base.Int.{ℤ}
use httpkvdb.Base.Bytes.{Bytes, bytes_eq}
use httpkvdb.Golang.Crypto.{Std}
use httpkvdb.Model.{Time, TxOperationResult, Transaction}
use httpkvdb.Storage.Snapshot.{Snapshot, get_from, put_into, delete_from}
use httpkvdb.Storage.Records.{get_from-put_into, get_from-delete_from}
use httpkvdb.Storage.Disk.{Env}
use httpkvdb.Storage.Atomic.{AtomicTx}
use httpkvdb.Storage.Atomic
use httpkvdb.Tx.Rounds.{run_ops-EndingGood}
use httpkvdb.Tx.Execute.{run_ops, Ending, finished, stopped}

-- `d'` is `d` but for the records of the userspace `u` and the version.
pub record IsFrame (u : Bytes) (d d' : Snapshot) : Type 0 where
  pub others : (u' key : Bytes) → (bytes_eq u u' ≡ true) ⊎ (get_from d' u' key ≡ get_from d u' key)
  pub keys : d'.api_keys ≡ d.api_keys
  pub subjects : d'.jwt_subjects ≡ d.jwt_subjects
  pub txs : d'.txs ≡ d.txs

pub other_space :
    (u u' : Bytes) {P : Type 0} → (bytes_eq u u' ≡ false → P) → (bytes_eq u u' ≡ true) ⊎ P
other_space u u' f = elim (Bool-cases (bytes_eq u u')) [ inl h ↦ inl h | inr h ↦ inr (f h) ]

IsFrame-refl : (u : Bytes) (d : Snapshot) → IsFrame u d d
IsFrame-refl u d = record { others = λ u' key. inr refl; keys = refl; subjects = refl; txs = refl }

IsFrame-trans :
    (u : Bytes) {d d' d'' : Snapshot} → IsFrame u d d' → IsFrame u d' d'' → IsFrame u d d''
IsFrame-trans u f g = record {
  others = λ u' key. elim (f.others u' key) [
    | inl same ↦ inl same
    | inr p ↦ elim (g.others u' key) [ inl same ↦ inl same | inr q ↦ inr (q ∙ p) ]
  ];
  keys = g.keys ∙ f.keys;
  subjects = g.subjects ∙ f.subjects;
  txs = g.txs ∙ f.txs;
}

-- The same of the working copy, which stays open.
abbrev pub Frames : Bytes → AtomicTx → AtomicTx → Type 0
Frames u atx atx' = IsFrame u atx.contents atx'.contents × (atx'.closed ≡ atx.closed)

Frames-refl : (u : Bytes) (atx : AtomicTx) → Frames u atx atx
Frames-refl u atx = (IsFrame-refl u atx.contents, refl)

abbrev pub EndingFrames : Bytes → AtomicTx → Ending → Type 0
EndingFrames u atx (finished results atx') = Frames u atx atx'
EndingFrames u atx (stopped results reason e) = Unit {0}

delete_from-tables :
    (d : Snapshot) (u key : Bytes)
    → ((delete_from d u key).1.api_keys ≡ d.api_keys)
      × ((delete_from d u key).1.jwt_subjects ≡ d.jwt_subjects)
      × ((delete_from d u key).1.txs ≡ d.txs)
unfolding delete_from
delete_from-tables d u key = ground arith

pub delete_from-IsFrame : (d : Snapshot) (u key : Bytes) → IsFrame u d (delete_from d u key).1
delete_from-IsFrame d u key =
    let (keys, subjects, txs) = delete_from-tables d u key in
    record {
      others = λ u' j. other_space u u' (λ h. get_from-delete_from d u key u' j ∙ rw h refl);
      keys = keys;
      subjects = subjects;
      txs = txs;
    }

pub put_into-IsFrame :
    (std : Std) (now : Time) (d : Snapshot) (u key value content_type : Bytes)
    → IsFrame u d (put_into std now d u key value content_type).1
put_into-IsFrame std now d u key value content_type = record {
  others = λ u' j.
      other_space u u' (λ h. get_from-put_into std now d u key value content_type u' j ∙ rw h refl);
  keys = unfold put_into in refl;
  subjects = unfold put_into in refl;
  txs = unfold put_into in refl;
}

-- The other userspaces, the credentials and the transactions stay as they are.
pub run_ops-EndingFrames :
    {Doc : Type 0} (env : Env Doc) (t : Transaction) (seqs : List ℤ)
    (results : List TxOperationResult) (atx : AtomicTx)
    → EndingFrames t.userspace_id atx (run_ops env t seqs results atx)
unfolding Atomic.put Atomic.delete
run_ops-EndingFrames env t seqs results atx =
    let u = t.userspace_id in
    run_ops-EndingGood env t (Frames u atx)
      (λ atx' key value ct (f, o).
        (IsFrame-trans u f (put_into-IsFrame env.std env.now atx'.contents u key value ct), o))
      (λ atx' key (f, o). (IsFrame-trans u f (delete_from-IsFrame atx'.contents u key), o)) seqs
      results atx (Frames-refl u atx)
