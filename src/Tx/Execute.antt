-- ===== src/Tx/Execute.antt =====
-- Coordinator.execute: the operations of a complete transaction, run on an AtomicTx.
use httpkvdb.Base.{
  ℕ, zero, suc, Bool, true, false, not, ◌&&◌, Option, none, some, List, [], ◌∷◌, ◌++◌,
  if◌then◌else◌,
}
use httpkvdb.Base.Int.{ℤ, pos, pos_part, int_eq}
use httpkvdb.Base.Bytes.{Bytes, codes, bytes_eq, is_empty}
use httpkvdb.Base.Dict.{lookup}
use httpkvdb.Golang.Encoding.{base64_std}
use httpkvdb.Model.{
  Error, not_found, invalid_tx, zero_time, KvRecord, TxStatus, TxOperation, TxOperationResult,
  TxResult, Transaction, Result, ok, err,
}
use httpkvdb.Storage.Disk.{Env}
use httpkvdb.Storage.Store.{Store}
use httpkvdb.Storage.Store
use httpkvdb.Storage.Atomic.{AtomicTx, begin_atomic, rollback, commit}
use httpkvdb.Storage.Atomic
use httpkvdb.Tx.Digest.{digest}

-- The cases of the switch on the operation's type.
pub data OpKind : Type 0 where
  put get head exists delete other : OpKind

unfoldable pub op_kind : Bytes → OpKind
op_kind op_type =
    if bytes_eq op_type (codes "PUT")
    then put
    else if bytes_eq op_type (codes "GET")
    then get
    else if bytes_eq op_type (codes "HEAD")
    then head
    else if bytes_eq op_type (codes "EXISTS")
    then exists
    else if bytes_eq op_type (codes "DELETE")
    then delete
    else other

-- op := t.Ops[seq], the zero value if there is none
abbrev zero_op : TxOperation
zero_op = record {
  tx_id = [];
  seq = pos 0;
  op_id = [];
  op_type = [];
  key = [];
  content_type = [];
  body = [];
  body_hash = [];
  received_at = zero_time;
}

unfoldable pub op_at : Transaction → ℤ → TxOperation
op_at t seq = elim (lookup t.ops seq) [ none ↦ zero_op | some op ↦ op ]

unfoldable pub fail : TxOperationResult → Error → TxOperationResult
fail item not_found = record item { status = 404; error = codes "KEY_NOT_FOUND" }
fail item e = record item { status = 500; error = codes "STORAGE_ERROR" }

abbrev pub start_item : ℤ → TxOperation → TxOperationResult
start_item seq op = record {
  seq = seq;
  op = op.op_type;
  status = 0;
  key = op.key;
  content_type = [];
  value_base64 = [];
  version = 0;
  error = [];
}

-- One round of the loop: an item and the loop goes on, or the reason and the error of the abort,
-- with the item that ends the results, if there are any.
pub data Round : Type 0 where
  goes_on : TxOperationResult → AtomicTx → Round
  aborts : Option TxOperationResult → Bytes → Error → Round

abbrev key_not_found : Bytes
key_not_found = codes "KEY_NOT_FOUND"

abbrev read_item : Bool → TxOperationResult → KvRecord → TxOperationResult
read_item with_value item rec = record item {
  status = 200;
  content_type = rec.content_type;
  value_base64 = if with_value then base64_std rec.value else item.value_base64;
  version = rec.version;
}

abbrev read_round : Bool → TxOperationResult → AtomicTx → Result KvRecord → Round
read_round with_value item atx (ok rec) = goes_on (read_item with_value item rec) atx
read_round with_value item atx (err e) = aborts (some (fail item e)) key_not_found e

abbrev delete_round : TxOperationResult → AtomicTx → Result ℕ → Round
delete_round item atx (ok version) = goes_on (record item { status = 204; version = version }) atx
delete_round item atx (err e) = aborts (some (fail item e)) key_not_found e

-- AtomicTx.Put always returns a nil error, so that branch of PUT is never taken.
unfoldable pub run_kind :
    {Doc : Type 0} → Env Doc → Bytes → TxOperation → TxOperationResult → AtomicTx → OpKind → Round
run_kind env u op item atx put =
    let (rec, atx') = Atomic.put env atx u op.key op.body op.content_type in
    goes_on (record item { status = 200; version = rec.version }) atx'
run_kind env u op item atx get = read_round true item atx (Atomic.get atx u op.key)
run_kind env u op item atx head = read_round false item atx (Atomic.get atx u op.key)
run_kind env u op item atx exists =
    goes_on
      (if Atomic.exists atx u op.key
        then record item { status = 200 }
        else record item { status = 404; error = key_not_found })
      atx
run_kind env u op item atx delete =
    let (r, atx') = Atomic.delete atx u op.key in delete_round item atx' r
run_kind env u op item atx other = aborts none (codes "invalid op") invalid_tx

unfoldable pub run_op : {Doc : Type 0} → Env Doc → Transaction → ℤ → AtomicTx → Round
run_op env t seq atx =
    let op = op_at t seq in
    run_kind env t.userspace_id op (start_item seq op) atx (op_kind op.op_type)

-- How the loop ends.
pub data Ending : Type 0 where
  finished : List TxOperationResult → AtomicTx → Ending
  stopped : Option (List TxOperationResult) → Bytes → Error → Ending

abbrev pub stopped_with : List TxOperationResult → Option TxOperationResult → Bytes → Error → Ending
stopped_with results none reason e = stopped none reason e
stopped_with results (some item) reason e = stopped (some (results ++ item ∷ [])) reason e

-- The numbers from `seq` on, `n` of them.
unfoldable pub seqs_from : ℕ → ℕ → List ℤ
seqs_from seq zero = []
seqs_from seq (suc n) = pos seq ∷ seqs_from (suc seq) n

unfoldable pub run_ops :
    {Doc : Type 0} → Env Doc → Transaction → List ℤ → List TxOperationResult → AtomicTx → Ending
run_ops env t [] results atx = finished results atx
run_ops env t (seq ∷ seqs) results atx = elim (run_op env t seq atx) [
  | aborts item reason e ↦ stopped_with results item reason e
  | goes_on item atx' ↦ run_ops env t seqs (results ++ item ∷ []) atx'
]

-- for seq := 1; seq <= t.TotalOps; seq++
abbrev pub all_seqs : Transaction → List ℤ
all_seqs t = seqs_from 1 (pos_part t.total_ops)

abbrev aborted_result : Transaction → Option (List TxOperationResult) → Option TxResult
aborted_result t none = none
aborted_result t (some results) =
    some (record { tx_id = t.tx_id; status = TxStatus.aborted; results = results })

abbrev or_old : Option TxResult → Option TxResult → Option TxResult
or_old none old = old
or_old (some r) old = some r

unfoldable pub aborted_tx : Transaction → Option (List TxOperationResult) → Bytes → Transaction
aborted_tx t results reason = record t {
  status = TxStatus.aborted;
  abort_reason = reason;
  result = or_old (aborted_result t results) t.result;
}

unfoldable pub committed_tx : Transaction → List TxOperationResult → Transaction
committed_tx t results = record t {
  status = TxStatus.committed;
  result = some (record { tx_id = t.tx_id; status = TxStatus.committed; results = results });
}

abbrev pub Executed : Type 0
Executed = Option TxResult × Option Error

module _ {Doc : Type 0} (env : Env Doc) where
  -- What follows the loop.
  unfoldable pub conclude : Transaction → Store Doc → Ending → Executed × Store Doc
  conclude t s (stopped results reason e) =
      let (_, s') = Store.save_tx env s (aborted_tx t results reason) in
      ((aborted_result t results, some e), s')
  conclude t s (finished results atx) =
      let t' = committed_tx t results in
      let (r, _, s') = commit env (Atomic.save_tx atx t') s in
      (elim r [ err e ↦ (none, some e) | ok _ ↦ (t'.result, none) ], s')

  unfoldable pub execute : Transaction → Store Doc → Executed × Store Doc
  execute t s =
      let mismatch : Transaction = record t {
        status = TxStatus.aborted;
        abort_reason = codes "tx digest mismatch";
      } in
      if not (is_empty t.tx_digest) && not (bytes_eq t.tx_digest (digest env.std t))
      then (let (_, s') = Store.save_tx env s mismatch in ((none, some Error.aborted), s'))
      else elim (begin_atomic env s) [
        | err e ↦ ((none, some e), s)
        | ok atx ↦ conclude t s (run_ops env t (all_seqs t) [] atx)
      ]
