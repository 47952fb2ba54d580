-- ===== src/Tx/Coordinator.antt =====
-- Coordinator: the requests that create a transaction, add operations to it, and end it. Only
-- `execute` holds the global lock; the other methods load, change and save without it.
use httpkvdb.Base.{
  ℕ, ◌+◌, ◌-◌, Bool, true, false, not, ◌&&◌, ◌||◌, Option, none, some, List, [], ◌∷◌, ◌++◌, length,
  if◌then◌else◌, ltb,
}
use httpkvdb.Base.Int.{ℤ, pos, pos_part, neg_part, leb_ℤ, ltb_ℤ, eq_ℤ, int_eq}
use httpkvdb.Base.Bytes.{Bytes, codes, bytes_eq, bytes_key, is_empty}
use httpkvdb.Base.Dict.{Dict, lookup, insert, member}
use httpkvdb.Golang.Encoding.{hex}
use httpkvdb.Model.{
  Error, Time, Principal, TxStatus, TxOperation, TxResult, Transaction, Result, ok, err,
}
use httpkvdb.Storage.Disk.{Env}
use httpkvdb.Storage.Store.{Store, save_tx, get_tx, list_txs}
use httpkvdb.Tx.Digest.{body_hash, same_op, valid_tx_id}
use httpkvdb.Tx.Execute.{execute, all_seqs}

-- A duration is a number of nanoseconds.
pub record Coordinator : Type 0 where
  pub max_ops : ℤ
  pub default_timeout : ℤ
  pub max_timeout : ℤ

-- NewCoordinator; the store and the lock are passed to the methods.
abbrev pub new_coordinator : ℤ → ℤ → ℤ → Coordinator
new_coordinator max_ops default_timeout max_timeout = record {
  max_ops = max_ops;
  default_timeout = default_timeout;
  max_timeout = max_timeout;
}

-- newTxID, for the 16 random bytes
abbrev pub new_tx_id : Bytes → Bytes
new_tx_id random = codes "tx_" ++ hex random

pub record Status : Type 0 where
  pub tx_id : Bytes
  pub status : TxStatus
  pub total_ops : ℤ
  pub deadline : Time
  pub received_seq : List ℤ
  pub missing_seq : List ℤ

-- (Status, *TxResult, error), where no status stands for the zero value beside an error.
pub record Reply : Type 0 where
  pub status : Option Status
  pub result : Option TxResult
  pub error : Option Error

abbrev pub failed : Error → Reply
failed e = record { status = none; result = none; error = some e }

-- t.Add(d)
abbrev pub add_duration : Time → ℤ → Time
add_duration t d = t + pos_part d - neg_part d

unfoldable pub received : Dict ℤ TxOperation → List ℤ → List ℤ
received ops [] = []
received ops (seq ∷ seqs) =
    let rest = received ops seqs in if member ops seq then seq ∷ rest else rest

unfoldable pub missing : Dict ℤ TxOperation → List ℤ → List ℤ
missing ops [] = []
missing ops (seq ∷ seqs) =
    let rest = missing ops seqs in if member ops seq then rest else seq ∷ rest

unfoldable pub status_of : Transaction → Status
status_of t = record {
  tx_id = t.tx_id;
  status = t.status;
  total_ops = t.total_ops;
  deadline = t.deadline;
  received_seq = received t.ops (all_seqs t);
  missing_seq = missing t.ops (all_seqs t);
}

abbrev pub error_of : Result (Unit {0}) → Option Error
error_of (ok _) = none
error_of (err e) = some e

abbrev pub is_open : TxStatus → Bool
is_open TxStatus.pending = true
is_open TxStatus.waiting_for_ops = true
is_open _ = false

abbrev pub is_committed : TxStatus → Bool
is_committed TxStatus.committed = true
is_committed _ = false

abbrev pub ended : TxStatus → Option Error
ended TxStatus.aborted = some Error.aborted
ended TxStatus.expired = some Error.expired
ended TxStatus.committed = some Error.already_committed
ended _ = none

-- The same caller that owns a transaction.
abbrev pub owns : Principal → Transaction → Bool
owns p t = bytes_eq t.user_id p.user_id && bytes_eq t.userspace_id p.userspace_id

unfoldable pub load_owned : {Doc : Type 0} → Store Doc → Principal → Bytes → Result Transaction
load_owned s p tx_id = elim (get_tx s tx_id) [
  | err e ↦ err e
  | ok t ↦ if owns p t then ok t else err Error.forbidden
]

abbrev pub same_tx : Principal → ℤ → Transaction → Bool
same_tx p total_ops t = owns p t && eq_ℤ t.total_ops total_ops

module _ {Doc : Type 0} (env : Env Doc) where
  -- The answer, the transaction that the caller goes on with, and the store.
  unfoldable pub expire_if_needed : Transaction → Store Doc → Bool × Transaction × Store Doc
  expire_if_needed t s =
      let t' : Transaction = record t { status = TxStatus.expired } in
      if is_open t.status && ltb t.deadline env.now
      then (let (_, s') = save_tx env s t' in (true, t', s'))
      else (false, t, s)

  unfoldable pub mutable : Transaction → Store Doc → Option Error × Store Doc
  mutable t s =
      let (late, t', s') = expire_if_needed t s in
      if late then (some Error.expired, s') else (ended t'.status, s')

  -- The transaction of a request, as CreateTx first saves it.
  abbrev pub opened_tx : Principal → ℤ → ℤ → Bytes → Transaction
  opened_tx p total_ops timeout tx_id = record {
    tx_id = tx_id;
    user_id = p.user_id;
    userspace_id = p.userspace_id;
    total_ops = total_ops;
    status = TxStatus.pending;
    created_at = env.now;
    deadline = add_duration env.now timeout;
    commit_received = false;
    tx_digest = [];
    ops = [];
    result = none;
    abort_reason = [];
  }

  -- `fresh` is what newTxID returns.
  unfoldable pub create_tx :
      Coordinator → Bytes → Store Doc → Principal → ℤ → ℤ → Bytes → Result Transaction × Store Doc
  create_tx c fresh s p total_ops timeout requested_id =
      let timeout' = if leb_ℤ timeout (pos 0) then c.default_timeout else timeout in
      let tx_id = if is_empty requested_id then fresh else requested_id in
      let t = opened_tx p total_ops timeout' tx_id in
      if leb_ℤ total_ops (pos 0) || ltb_ℤ c.max_ops total_ops
      then (err Error.invalid_tx, s)
      else if ltb_ℤ c.max_timeout timeout'
      then (err Error.invalid_tx, s)
      else if not (is_empty requested_id) && not (valid_tx_id requested_id)
      then (err Error.invalid_tx, s)
      else elim (get_tx s tx_id) [
        | ok existing ↦
            (if same_tx p total_ops existing then ok existing else err Error.invalid_tx, s)
        | err _ ↦ let (r, s') = save_tx env s t in (elim r [ err e ↦ err e | ok _ ↦ ok t ], s')
      ]

  -- return c.status(t), nil, c.store.SaveTx(t)
  abbrev saved : Transaction → Store Doc → Reply × Store Doc
  saved t s =
      let (r, s') = save_tx env s t in
      (record { status = some (status_of t); result = none; error = error_of r }, s')

  -- res, err := c.execute(t); return c.status(t), res, err
  abbrev executed : Transaction → Store Doc → Reply × Store Doc
  executed t s =
      let (x, s') = execute env t s in
      (record { status = some (status_of t); result = x.0; error = x.1 }, s')

  abbrev pub stamped : Bytes → TxOperation → TxOperation
  stamped tx_id op = record op {
    tx_id = tx_id;
    received_at = env.now;
    body_hash = body_hash env.std op.body;
  }

  -- AddOp behind its guards, for a stamped operation.
  unfoldable pub accept_op : Transaction → Store Doc → TxOperation → Reply × Store Doc
  accept_op t s op =
      let conflict : Transaction = record t {
        status = TxStatus.aborted;
        abort_reason = codes "SEQ_CONFLICT";
      } in
      let t' : Transaction = record t { ops = insert t.ops op.seq op } in
      let waiting : Transaction = record t' { status = TxStatus.waiting_for_ops } in
      let pending : Transaction = record t' { status = TxStatus.pending } in
      elim (lookup t.ops op.seq) [
        | some old ↦
            if same_op old op
            then (record { status = some (status_of t); result = t.result; error = none }, s)
            else (let (_, s') = save_tx env s conflict in (failed Error.seq_conflict, s'))
        | none ↦
            if t'.commit_received && eq_ℤ (pos (length t'.ops)) t'.total_ops
            then executed t' s
            else saved (if t'.commit_received then waiting else pending) s
      ]

  unfoldable pub add_op : Store Doc → Principal → Bytes → TxOperation → Reply × Store Doc
  add_op s p tx_id op = elim (load_owned s p tx_id) [
    | err e ↦ (failed e, s)
    | ok t ↦
        let (refused, s') = mutable t s in
        elim refused [
          | some e ↦ (failed e, s')
          | none ↦
              if ltb_ℤ op.seq (pos 1) || ltb_ℤ t.total_ops op.seq || is_empty op.op_id
              then (failed Error.invalid_tx, s')
              else accept_op t s' (stamped tx_id op)
        ]
  ]

  unfoldable pub commit : Store Doc → Principal → Bytes → ℤ → Bytes → Reply × Store Doc
  commit s p tx_id total_ops digest = elim (load_owned s p tx_id) [
    | err e ↦ (failed e, s)
    | ok t ↦
        let (refused, s') = mutable t s in
        let t' : Transaction = record t { commit_received = true; tx_digest = digest } in
        if is_committed t.status
        then (record { status = some (status_of t); result = t.result; error = none }, s)
        else elim refused [
          | some e ↦ (failed e, s')
          | none ↦
              if not (eq_ℤ total_ops (pos 0)) && not (eq_ℤ total_ops t.total_ops)
              then (failed Error.invalid_tx, s')
              else if ltb_ℤ (pos (length t.ops)) t.total_ops
              then saved (record t' { status = TxStatus.waiting_for_ops }) s'
              else executed t' s'
        ]
  ]

  unfoldable pub abort : Store Doc → Principal → Bytes → Reply × Store Doc
  abort s p tx_id = elim (load_owned s p tx_id) [
    | err e ↦ (failed e, s)
    | ok t ↦
        if is_committed t.status
        then (failed Error.already_committed, s)
        else saved (record t { status = TxStatus.aborted; abort_reason = codes "client aborted" }) s
  ]

  unfoldable pub get_result : Store Doc → Principal → Bytes → Reply × Store Doc
  get_result s p tx_id = elim (load_owned s p tx_id) [
    | err e ↦ (failed e, s)
    | ok t ↦
        let (_, t', s') = expire_if_needed t s in
        (record { status = some (status_of t'); result = t'.result; error = none }, s')
  ]

-- The loop of ExpireDue: `envs` is the world of each round.
unfoldable pub expire_all :
    {Doc : Type 0} → (Bytes → Env Doc) → List Transaction → ℕ → Store Doc → ℕ × Store Doc
expire_all envs [] count s = (count, s)
expire_all envs (t ∷ txs) count s =
    let (late, _, s') = expire_if_needed (envs t.tx_id) t s in
    expire_all envs txs (if late then count + 1 else count) s'

unfoldable pub expire_due : {Doc : Type 0} → (Bytes → Env Doc) → Store Doc → ℕ × Store Doc
expire_due envs s = expire_all envs (list_txs s) 0 s
