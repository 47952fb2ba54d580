-- ===== src/Tx/Expiry.antt =====
-- ExpireDue on all transactions.
use httpkvdb.Base.{
  ℕ, ◌≡◌, refl, sym, ◌∙◌, ap, ◌&&◌, Option, none, some, [], ◌∷◌, map, if◌then◌else◌, arith, inl,
  inr, Bool-cases, Option-cases, ltb,
}
use httpkvdb.Base.Bytes.{Bytes, bytes_eq, bytes_eq_iff, bytes_key}
use httpkvdb.Base.Dict.{Dict, lookup, IsMap, lookup-insert, lookup-Fresh}
use httpkvdb.Model.{Transaction, TxStatus, Result, ok}
use httpkvdb.Storage.Disk.{Env}
use httpkvdb.Storage.Store.{Store, get_tx, list_txs, save, save_tx}
use httpkvdb.Tx.Coordinator.{is_open, expire_if_needed, expire_all, expire_due}

-- A transaction after a look at the clock.
abbrev pub aged : {Doc : Type 0} → Env Doc → Transaction → Transaction
aged env t =
    if is_open t.status && ltb t.deadline env.now then record t { status = TxStatus.expired } else t

-- Every entry of the table has the name of its transaction.
abbrev pub HasNames : Dict Bytes Transaction → Type 0
HasNames [] = Unit {0}
HasNames ((k, t) ∷ m) = (t.tx_id ≡ k) × HasNames m

abbrev Table : Type 0
Table = Dict Bytes Transaction

module _ {Doc : Type 0} (envs : Bytes → Env Doc) where
  abbrev answer : Result Transaction → Option Transaction → Result Transaction
  answer before none = before
  answer before (some t) = ok (aged (envs t.tx_id) t)

  expire_if_needed-get :
      (s : Store Doc) (k : Bytes) (t : Transaction)
      → t.tx_id ≡ k
      → get_tx s k ≡ ok t
      → (j : Bytes)
      → get_tx (expire_if_needed (envs t.tx_id) t s).2 j
        ≡ (if bytes_eq k j then ok (aged (envs t.tx_id) t) else get_tx s j)
  unfolding expire_if_needed get_tx save_tx save
  expire_if_needed-get s k t name there j = ground (
    arith,
    name,
    bytes_eq_iff k j,
    lookup-insert s.contents.txs t.tx_id (record t { status = TxStatus.expired }) j,
  )

  expire_all-get :
      (m : Table) (count : ℕ) (s : Store Doc)
      → IsMap m
      → HasNames m
      → ((k : Bytes) (t : Transaction) → lookup m k ≡ some t → get_tx s k ≡ ok t)
      → (k : Bytes)
      → get_tx (expire_all envs (map (λ entry. entry.1) m) count s).1 k
        ≡ answer (get_tx s k) (lookup m k)
  unfolding expire_all lookup
  expire_all-get [] count s im names there k = refl
  expire_all-get ((j, t) ∷ m) count s im (name, names) there k =
      let s1 = (expire_if_needed (envs t.tx_id) t s).2 in
      let first : get_tx s j ≡ ok t = there j t (rw ((bytes_eq_iff j j).1 refl) refl) in
      let step = expire_if_needed-get s j t name first in
      let kept : (k' : Bytes) (u : Transaction) → lookup m k' ≡ some u → get_tx s1 k' ≡ ok u =
        λ k' u h. (elim (Bool-cases (bytes_eq j k')) [
          | inl y ↦ absurd (
              none-some
                (sym (lookup-Fresh j m im.0) ∙ ap (λ x. lookup m x) ((bytes_eq_iff j k').0 y) ∙ h))
          | inr n ↦ step k' ∙ rw n (there k' u (rw n h))
        ]) in
      expire_all-get m _ s1 im.1 names kept k ∙ elim (Bool-cases (bytes_eq j k)) [
        | inl y ↦ rw y (
            ap (λ o. answer (get_tx s1 k) o)
              (ap (λ x. lookup m x) (sym ((bytes_eq_iff j k).0 y)) ∙ lookup-Fresh j m im.0)
            ∙ step k
            ∙ rw y refl)
        | inr n ↦ rw n (ap (λ r. answer r (lookup m k)) (step k ∙ rw n refl))
      ]
    where
      none-some : {u : Transaction} → Path (Option Transaction) none (some u) → ⊥
      none-some p = cc

  -- A round of the expiry ends every transaction that is past its deadline at that time and
  -- still collects operations: it is stored as expired. Every other stored transaction is as
  -- before. The table has one entry for each transaction, under its identifier.
  pub expire_due_expires :
      (s : Store Doc)
      → IsMap s.contents.txs
      → HasNames s.contents.txs
      → (tx_id : Bytes) (t : Transaction) → get_tx s tx_id ≡ ok t
      → get_tx (expire_due envs s).1 tx_id ≡ ok (aged (envs t.tx_id) t)
  unfolding expire_due list_txs get_tx
  expire_due_expires s im names tx_id t there = elim (Option-cases (lookup s.contents.txs tx_id)) [
    | inl n ↦ ground arith
    | inr (u, h) ↦
        expire_all-get s.contents.txs 0 s im names (λ k v l. rw (l, get_tx) refl) tx_id
        ∙ ground arith
  ]
