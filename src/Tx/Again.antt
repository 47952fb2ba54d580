-- ===== src/Tx/Again.antt =====
-- A request that is made again: CreateTx under the same identifier, AddOp under the same number.
use httpkvdb.Base.{
  ◌≡◌, refl, sym, ap, ◌∙◌, Bool, true, false, not, ◌&&◌, ◌||◌, arith, inl, inr, if◌then◌else◌,
  Bool-cases,
}
use mathlib.Core.Path.{subst}
use httpkvdb.Base.Int.{ℤ, int_eq, eq_ℤ_iff, leb_ℤ, ltb_ℤ, pos}
use httpkvdb.Base.Bytes.{Bytes, codes, bytes_eq_iff, bytes_key, is_empty}
use httpkvdb.Base.Dict.{lookup-insert}
use httpkvdb.Model.{
  Error, Result, Result-cases, ok, err, Principal, TxStatus, TxOperation, Transaction,
}
use httpkvdb.Storage.Disk.{Env}
use httpkvdb.Storage.Store.{Store, get_tx, save, save_tx}
use httpkvdb.Tx.Digest.{valid_tx_id}
use httpkvdb.Tx.Coordinator.{Coordinator, create_tx, opened_tx, same_tx}

-- The transaction of a SEQ_CONFLICT.
abbrev pub conflicting : Transaction → Transaction
conflicting t = record t { status = TxStatus.aborted; abort_reason = codes "SEQ_CONFLICT" }

-- The guards of CreateTx, each of which refuses the request.
abbrev bad_request : Coordinator → ℤ → ℤ → Bytes → Bool
bad_request c total_ops timeout id =
    (leb_ℤ total_ops (pos 0) || ltb_ℤ c.max_ops total_ops)
    || ltb_ℤ c.max_timeout (if leb_ℤ timeout (pos 0) then c.default_timeout else timeout)
    || (not (is_empty id) && not (valid_tx_id id))

get_tx-save_tx :
    {Doc : Type 0} (env : Env Doc) (s : Store Doc) (t : Transaction)
    → get_tx (save_tx env s t).1 t.tx_id ≡ ok t
unfolding get_tx save_tx save
get_tx-save_tx env s t =
    ground (arith, lookup-insert s.contents.txs t.tx_id t t.tx_id, bytes_eq_iff t.tx_id t.tx_id)

module _ {Doc : Type 0} (env : Env Doc) (c : Coordinator) (fresh : Bytes) (s : Store Doc)
    (p : Principal) (total_ops timeout : ℤ) (id : Bytes) where
  create_refused :
      bad_request c total_ops timeout id ≡ true
      → create_tx env c fresh s p total_ops timeout id ≡ (err Error.invalid_tx, s)
  unfolding create_tx
  create_refused h = ground arith

  create_existing :
      (t : Transaction)
      → is_empty id ≡ false
      → bad_request c total_ops timeout id ≡ false
      → get_tx s id ≡ ok t
      → create_tx env c fresh s p total_ops timeout id
        ≡ (if same_tx p total_ops t then ok t else err Error.invalid_tx, s)
  unfolding create_tx
  create_existing t e h g = ground arith

  abbrev timeout' : ℤ
  timeout' = if leb_ℤ timeout (pos 0) then c.default_timeout else timeout

  create_new :
      (x : Error)
      → is_empty id ≡ false
      → bad_request c total_ops timeout id ≡ false
      → get_tx s id ≡ err x
      → create_tx env c fresh s p total_ops timeout id ≡ (
          let t = opened_tx env p total_ops timeout' id in
          (
            elim (save_tx env s t).0 as (λ _. Result Transaction) [ err e ↦ err e | ok _ ↦ ok t ],
            (save_tx env s t).1,
          ))
  unfolding create_tx
  create_new x e h g = ground arith

  same_tx-opened_tx : same_tx p total_ops (opened_tx env p total_ops timeout' id) ≡ true
  same_tx-opened_tx = ground (
    arith,
    bytes_eq_iff p.user_id p.user_id,
    bytes_eq_iff p.userspace_id p.userspace_id,
    eq_ℤ_iff total_ops total_ops,
  )

  created_existing :
      (t old : Transaction) (s' : Store Doc)
      → (if same_tx p total_ops old then ok old else err Error.invalid_tx) ≡ ok t
      → s ≡ s'
      → get_tx s id ≡ ok old
      → (get_tx s' id ≡ ok t) × (same_tx p total_ops t ≡ true)
  created_existing t old s' h h' g = elim (Bool-cases (same_tx p total_ops old)) [
    | inl o ↦
        let k : ok old ≡ ok t = rw o at h in
        (cc, let q : old ≡ t = cc in subst (λ y. same_tx p total_ops y ≡ true) q o)
    | inr o ↦ absurd (let k : err Error.invalid_tx ≡ ok t = rw o at h in cc)
  ]

  created_new :
      (n t : Transaction) (r : Result (Unit {0}))
      → elim r as (λ _. Result Transaction) [ err e ↦ err e | ok _ ↦ ok n ] ≡ ok t
      → n ≡ t
  created_new n t (ok x) h = cc
  created_new n t (err e) h = absurd (cc)

  created :
      (t : Transaction) (s' : Store Doc)
      → is_empty id ≡ false
      → create_tx env c fresh s p total_ops timeout id ≡ (ok t, s')
      → (bad_request c total_ops timeout id ≡ false)
        × (get_tx s' id ≡ ok t)
        × (same_tx p total_ops t ≡ true)
  created t s' e h = elim (Bool-cases (bad_request c total_ops timeout id)) [
    | inl b ↦ absurd (let k = sym h ∙ create_refused b in cc)
    | inr b ↦ elim (Result-cases (get_tx s id)) [
      | inl (old, g) ↦
          let k = sym (create_existing old e b g) ∙ h in
          let (i, j) = created_existing t old s' (ap (λ y. y.0) k) (ap (λ y. y.1) k) g in (b, i, j)
      | inr (x, g) ↦
          let k = sym (create_new x e b g) ∙ h in
          let i = created_new _ t _ (ap (λ y. y.0) k) in
          (
            b,
            sym (ap (λ y. get_tx y.1 id) k) ∙ get_tx-save_tx env s _ ∙ ap ok i,
            subst (λ y. same_tx p total_ops y ≡ true) i same_tx-opened_tx,
          )
    ]
  ]

module _ {Doc : Type 0} (env env' : Env Doc) (c : Coordinator) (fresh fresh' : Bytes)
    (s s' : Store Doc) (p : Principal) (total_ops timeout : ℤ) (id : Bytes) where
  -- A creation that succeeded under an identifier of the client, made again at any later time
  -- with the same owner and numbers, returns the same transaction and leaves the store as it is.
  pub create_tx-create_tx :
      (t : Transaction)
      → is_empty id ≡ false
      → create_tx env c fresh s p total_ops timeout id ≡ (ok t, s')
      → create_tx env' c fresh' s' p total_ops timeout id ≡ (ok t, s')
  create_tx-create_tx t e h =
      let (b, g, o) = created env c fresh s p total_ops timeout id t s' e h in
      create_existing env' c fresh' s' p total_ops timeout id t e b g ∙ rw o refl

-- Two operations are the same request: all that the client sent is the same, the body by its hash.
pub record IsSame (a b : TxOperation) : Type 0 where
  pub op_id : a.op_id ≡ b.op_id
  pub op_type : a.op_type ≡ b.op_type
  pub key : a.key ≡ b.key
  pub content_type : a.content_type ≡ b.content_type
  pub body : a.body_hash ≡ b.body_hash
