-- ===== src/Http/After.antt =====
-- How a request of a user goes from a store to the next.
use httpkvdb.Base.{
  ◌⊎◌, ◌≡◌, ◌∙◌, sym, ◌^◌, Bool, true, false, List, [], ◌∷◌, inl, inr, Option-cases, arith,
}
use mathlib.Core.Path.{subst}
use httpkvdb.Base.Int.{ℤ, pos}
use httpkvdb.Base.Bytes.{Bytes, codes}
use httpkvdb.Golang.Text.{cut, trim_prefix, split, to_upper}
use httpkvdb.Golang.Stream.{limited, read_all}
use httpkvdb.Golang.Strconv.{atoi}
use httpkvdb.Model.{KvRecord, Principal, Transaction, TxOperation, ImportMode, Result-cases}
use httpkvdb.Storage.Store.{Store, save_tx}
use httpkvdb.Storage.Store
use httpkvdb.Storage.Atomic.{import_store}
use httpkvdb.Codec.Decode.{decode}
use httpkvdb.Tx.Execute.{execute}
use httpkvdb.Tx.Coordinator.{new_tx_id}
use httpkvdb.Tx.After.{
  Owned, load_owned-eq-ok, after_create_tx, after_get_result, after_abort, after_add_op,
  after_commit,
}
use httpkvdb.Auth.Authenticator.{Authenticator}
use httpkvdb.Http.Message.{Request, Response}
use httpkvdb.Http.Server.{Server, World}
use httpkvdb.Http.Kv.{
  content_type_of, store_put, handle_put, handle_get, handle_delete, dispatch_kv, key_of, handle_kv,
  userspace_of, handle_named_kv, handle_userspace_kv,
}
use httpkvdb.Http.Transfer.{handle_export, handle_import, import_records_of, mode_of}
use httpkvdb.Http.Transactions.{
  new_op, milliseconds, handle_create_tx, send_op, body_of, add_put, handle_add_op, handle_commit,
  handle_tx_result, handle_abort, handle_tx,
}
use httpkvdb.Http.Admin.{handle_admin}
use httpkvdb.Http.Router.{api_path, handle_v1}

-- A request leaves the store as it is or does one step on the userspace `u`: what holds after each
-- step holds after the request.
module _ {Doc : Type 0} (w : World Doc) (id : Bytes) (s : Server Doc) (u : Bytes)
    (After : Store Doc → Authenticator → Type 0) (same : After s.store s.auth) where
  abbrev pub Then : Response × Server Doc → Type 0
  Then x = After x.1.store x.1.auth

  module _ (put : (key value ct : Bytes) → After (Store.put w.env s.store u key value ct).1 s.auth)
      (delete : (key : Bytes) → After (Store.delete w.env s.store u key).1 s.auth) where
    after_put : (r : Request) (key : Bytes) → Then (handle_put w id s r u key)
    unfolding handle_put store_put
    after_put r key = elim (Option-cases (read_all (limited s.cfg.max_value_size r.body))) [
      | inl h ↦ ground arith
      | inr (body, h) ↦
          ground (arith, put key body (content_type_of (r.header (codes "Content-Type"))))
    ]

    after_get : (key : Bytes) (head : Bool) → Then (handle_get w id s u key head)
    unfolding handle_get
    after_get key head = ground arith

    after_delete : (key : Bytes) → Then (handle_delete w id s u key)
    unfolding handle_delete
    after_delete key = ground (arith, delete key)

    pub after_kv : (r : Request) (raw_key : Bytes) → Then (handle_kv w id s r u raw_key)
    unfolding handle_kv dispatch_kv
    after_kv r raw_key = elim (Option-cases (key_of w id s raw_key)) [
      | inl h ↦ ground arith
      | inr (key, h) ↦
          ground (arith, after_put r key, after_get key true, after_get key false, after_delete key)
    ]

    after_userspace_kv :
        (r : Request) (p : Principal) (raw_path : Bytes)
        → p.userspace_id ≡ u
        → Then (handle_userspace_kv w id s r p raw_path)
    unfolding handle_userspace_kv handle_named_kv
    after_userspace_kv r p raw_path h = elim (Option-cases (cut b'/' raw_path)) [
      | inl c ↦ ground arith
      | inr ((space, key), c) ↦ elim (Option-cases (userspace_of w id space)) [
        | inl n ↦ ground arith
        | inr (u', n) ↦
            ground (arith, h, subst (λ v. Then (handle_kv w id s r v key)) (sym h) (after_kv r key))
      ]
    ]

  after_export : (p : Principal) → Then (handle_export w id s p)
  unfolding handle_export
  after_export p = same

  after_import :
      (r : Request) (p : Principal)
      → ((records : List KvRecord) (mode : ImportMode)
          → After (import_store w.env s.store p.userspace_id records mode).1 s.auth)
      → Then (handle_import w id s r p)
  unfolding handle_import import_records_of
  after_import r p imported = elim (Option-cases (mode_of (r.header (codes "X-KV-Import-Mode")))) [
    | inl m ↦ ground arith
    | inr (mode, m) ↦ elim (Option-cases (read_all (limited s.cfg.max_value_size r.body))) [
      | inl b ↦ ground arith
      | inr (input, b) ↦
          elim (Result-cases (decode w.env.std s.cfg.max_key_size s.cfg.max_value_size input)) [
            | inr (e, d) ↦ ground arith
            | inl (records, d) ↦ ground (arith, imported records mode)
          ]
    ]
  ]

  module _ (saved : (t : Transaction) → After (save_tx w.env s.store t).1 s.auth) where
    after_create : (r : Request) (p : Principal) → Then (handle_create_tx w id s r p)
    unfolding handle_create_tx
    after_create r p = elim (Option-cases (w.tx_request (limited (pos (2 ^ 20)) r.body))) [
      | inl m ↦ ground arith
      | inr (req, m) ↦ ground (
        arith,
        after_create_tx w.env s.store (λ name v. Unit {0}) (λ store. After store s.auth) same
            (λ t o. saved t) s.tx (new_tx_id w.random_tx) p req.total_ops
            (milliseconds req.timeout_ms) req.tx_id (λ e free. tt),
      )
    ]

    module _
        (executed : (t : Transaction)
          → t.userspace_id ≡ u
          → After (execute w.env t s.store).1 s.auth)
        (p : Principal) (mine : p.userspace_id ≡ u) where
      abbrev Mine : Bytes → Bytes → Type 0
      Mine name v = v ≡ u

      abbrev Kept : Store Doc → Type 0
      Kept store = After store s.auth

      saved_mine :
          (t : Transaction) → Mine t.tx_id t.userspace_id → Kept (save_tx w.env s.store t).1
      saved_mine t o = saved t

      owned : (tx_id : Bytes) → Owned w.env s.store Mine Kept same saved_mine p tx_id
      owned tx_id t l = load_owned-eq-ok s.store p tx_id t l ∙ mine

      after_send_op : (tx_id : Bytes) (op : TxOperation) → Then (send_op w id s p tx_id op)
      unfolding send_op
      after_send_op tx_id op =
          after_add_op w.env s.store Mine Kept same saved_mine executed p tx_id op (owned tx_id)

      after_add_put :
          (r : Request) (tx_id : Bytes) (seq : ℤ) (op_id key : Bytes)
          → Then (add_put w id s r p tx_id seq op_id key)
      unfolding add_put
      after_add_put r tx_id seq op_id key =
          elim (Option-cases (body_of w id (read_all (limited s.cfg.max_value_size r.body)))) [
            | inl h ↦ ground arith
            | inr (body, h) ↦
                let ct = content_type_of (r.header (codes "Content-Type")) in
                ground (arith, after_send_op tx_id (new_op seq op_id (codes "PUT") key ct body))
          ]

      after_handle_add_op :
          (r : Request) (tx_id : Bytes) (seq : ℤ) → Then (handle_add_op w id s r p tx_id seq)
      unfolding handle_add_op
      after_handle_add_op r tx_id seq =
          elim (Option-cases (key_of w id s (r.header (codes "X-KV-Key")))) [
            | inl h ↦ ground arith
            | inr (key, h) ↦
                let op_type = to_upper (r.header (codes "X-KV-Op")) in
                let op_id = r.header (codes "X-KV-Op-Id") in
                ground (
                  arith,
                  after_add_put r tx_id seq op_id key,
                  after_send_op tx_id (new_op seq op_id op_type key [] []),
                )
          ]

      after_tx : (r : Request) (parts : List Bytes) → Then (handle_tx w id s r p parts)
      unfolding handle_tx handle_commit handle_tx_result handle_abort
      after_tx r [] = same
      after_tx r (a ∷ []) = same
      after_tx r (tx_id ∷ action ∷ []) =
          let req = w.commit_request (limited (pos (2 ^ 20)) r.body) in
          ground (
            arith,
            after_commit w.env s.store Mine Kept same saved_mine executed p tx_id req.total_ops
                req.tx_digest (owned tx_id),
            after_get_result w.env s.store Mine Kept same saved_mine p tx_id (owned tx_id),
            after_abort w.env s.store Mine Kept same saved_mine p tx_id (owned tx_id),
          )
      after_tx r (tx_id ∷ action ∷ seq_text ∷ []) = elim (Option-cases (atoi seq_text)) [
        | inl h ↦ ground arith
        | inr (seq, h) ↦ ground (arith, after_handle_add_op r tx_id seq)
      ]
      after_tx r (a ∷ b ∷ c ∷ d ∷ rest) = same

      -- A request is one of the administration, or does such a step.
      pub v1_cases :
          ((key value ct : Bytes) → After (Store.put w.env s.store u key value ct).1 s.auth)
          → ((key : Bytes) → After (Store.delete w.env s.store u key).1 s.auth)
          → ((records : List KvRecord) (mode : ImportMode)
              → After (import_store w.env s.store p.userspace_id records mode).1 s.auth)
          → (r : Request)
          → (handle_v1 w id s r p
              ≡ handle_admin w id s r p (trim_prefix (api_path r.path) (codes "/admin/")))
            ⊎ Then (handle_v1 w id s r p)
      unfolding handle_v1
      v1_cases put delete imported r =
          let path = api_path r.path in
          ground (
            arith,
            mine,
            after_kv put delete r (trim_prefix path (codes "/kv/")),
            after_create r p,
            after_tx r (split b'/' (trim_prefix path (codes "/tx/"))),
            after_export p,
            after_import r p imported,
            after_userspace_kv put delete r p (trim_prefix path (codes "/")) mine,
          )
