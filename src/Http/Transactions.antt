-- ===== src/Http/Transactions.antt =====
-- tx_handlers.go of internal/httpapi.
use httpkvdb.Base.{
  ℕ, ◌^◌, Bool, false, not, ◌&&◌, ◌||◌, Option, none, some, List, [], ◌∷◌, if◌then◌else◌,
}
use httpkvdb.Base.Int.{ℤ, pos, ltb_ℤ, wrap_int, times}
use httpkvdb.Base.Bytes.{Bytes, codes, bytes_eq, is_empty}
use httpkvdb.Golang.Text.{to_upper}
use httpkvdb.Golang.Strconv.{atoi}
use httpkvdb.Golang.Stream.{limited, read_all}
use httpkvdb.Model.{Error, Principal, TxStatus, TxOperation, TxResult, ok, err, zero_time}
use httpkvdb.Validate.{validate_value}
use httpkvdb.Tx.Coordinator.{new_tx_id, Status, Reply, create_tx, add_op, get_result}
use httpkvdb.Tx.Coordinator
use httpkvdb.Http.Message.{
  Request, Response, tx_created, tx_aborted, tx_status, tx_result, write_json, write_error,
  not_found_page,
}
use httpkvdb.Http.Server.{Server, World, add_one}
use httpkvdb.Http.Kv.{content_type_of, key_of, invalid_key_error}

-- writeTxOutcome, on an error
abbrev pub tx_error : Bytes → Option TxResult → Error → Response
tx_error id result Error.tx_not_found =
    write_error id 404 (codes "TX_NOT_FOUND") (codes "transaction not found")
tx_error id result Error.forbidden = write_error id 403 (codes "FORBIDDEN") (codes "forbidden")
tx_error id result Error.seq_conflict =
    write_error id 409 (codes "SEQ_CONFLICT")
      (codes "same tx_id and seq received different operation content")
tx_error id result Error.already_committed =
    write_error id 409 (codes "TX_ALREADY_COMMITTED") (codes "transaction already committed")
tx_error id result Error.aborted =
    write_error id 409 (codes "TX_ABORTED") (codes "transaction aborted")
tx_error id result Error.expired =
    write_error id 410 (codes "TX_EXPIRED") (codes "transaction expired")
tx_error id result Error.not_found = write_json 409 (tx_result result)
tx_error id result _ = write_error id 400 (codes "INVALID_TX") (codes "invalid transaction")

-- The zero Status, which stands beside an error.
abbrev zero_status : Status
zero_status = record {
  tx_id = [];
  status = TxStatus.pending;
  total_ops = pos 0;
  deadline = zero_time;
  received_seq = [];
  missing_seq = [];
}

abbrev or_zero : Option Status → Status
or_zero none = zero_status
or_zero (some st) = st

-- writeTxOutcome without an error
abbrev pub tx_success : ℕ → Option Status → Option TxResult → Response
tx_success success status none = write_json success (tx_status (or_zero status))
tx_success success status (some result) = write_json success (tx_result (some result))

abbrev outcome_cases : Bytes → ℕ → Option Status → Option TxResult → Option Error → Response
outcome_cases id success status result none = tx_success success status result
outcome_cases id success status result (some e) = tx_error id result e

unfoldable pub tx_outcome : Bytes → ℕ → Reply → Response
tx_outcome id success reply = outcome_cases id success reply.status reply.result reply.error

-- validOp
unfoldable pub valid_op : Bytes → Bool
valid_op op =
    bytes_eq op (codes "GET")
    || bytes_eq op (codes "PUT")
    || bytes_eq op (codes "DELETE")
    || bytes_eq op (codes "EXISTS")
    || bytes_eq op (codes "HEAD")

-- What handleAddOp passes to AddOp.
abbrev pub new_op : ℤ → Bytes → Bytes → Bytes → Bytes → Bytes → TxOperation
new_op seq op_id op_type key content_type body = record {
  tx_id = [];
  seq = seq;
  op_id = op_id;
  op_type = op_type;
  key = key;
  content_type = content_type;
  body = body;
  body_hash = [];
  received_at = zero_time;
}

abbrev pub is_committed_result : Option TxResult → Bool
is_committed_result none = false
is_committed_result (some res) = Coordinator.is_committed res.status

abbrev success_status : Option TxResult → ℕ
success_status none = 202
success_status (some res) = 200

-- time.Duration(ms)*time.Millisecond, a product of 64 bits
abbrev pub milliseconds : ℤ → ℤ
milliseconds ms = wrap_int (times 1000000 ms)

module _ {Doc : Type 0} (w : World Doc) (id : Bytes) where
  abbrev pub invalid_tx_error : Bytes → Response
  invalid_tx_error message = write_error id 400 (codes "INVALID_TX") message

  abbrev too_large : Response
  too_large = write_error id 413 (codes "VALUE_TOO_LARGE") (codes "value too large")

  unfoldable pub handle_create_tx : Server Doc → Request → Principal → Response × Server Doc
  handle_create_tx s r p = elim (w.tx_request (limited (pos (2 ^ 20)) r.body)) [
    | none ↦ (write_error id 400 (codes "BAD_REQUEST") (codes "bad request"), s)
    | some req ↦
        let (t, store) =
          create_tx w.env s.tx (new_tx_id w.random_tx) s.store p req.total_ops
            (milliseconds req.timeout_ms) req.tx_id in
        let s' : Server Doc = record s { store = store } in
        let m = s.metrics in
        elim t [
          | err e ↦ (invalid_tx_error (codes "invalid transaction"), s')
          | ok t ↦ (
            write_json 201 (tx_created t.tx_id t.status t.total_ops t.deadline),
            record s' { metrics = record m { tx_created = add_one m.tx_created } },
          )
        ]
  ]

  unfoldable pub send_op : Server Doc → Principal → Bytes → TxOperation → Response × Server Doc
  send_op s p tx_id op =
      let (reply, store) = add_op w.env s.store p tx_id op in
      (tx_outcome id 202 reply, record s { store = store })

  abbrev pub body_of : Option Bytes → Option Bytes
  body_of none = none
  body_of (some []) = none
  body_of (some (b ∷ bs)) = some (b ∷ bs)

  -- handleAddOp for a PUT
  unfoldable pub add_put :
      Server Doc → Request → Principal → Bytes → ℤ → Bytes → Bytes → Response × Server Doc
  add_put s r p tx_id seq op_id key =
      elim (body_of (read_all (limited s.cfg.max_value_size r.body))) [
        | none ↦ (too_large, s)
        | some body ↦
            let ct = content_type_of (r.header (codes "Content-Type")) in
            elim (validate_value w.env.std ct body) [
              | err e ↦ (write_error id 422 (codes "INVALID_JSON") (codes "invalid json"), s)
              | ok _ ↦ send_op s p tx_id (new_op seq op_id (codes "PUT") key ct body)
            ]
      ]

  unfoldable pub handle_add_op :
      Server Doc → Request → Principal → Bytes → ℤ → Response × Server Doc
  handle_add_op s r p tx_id seq =
      let op_type = to_upper (r.header (codes "X-KV-Op")) in
      let op_id = r.header (codes "X-KV-Op-Id") in
      elim (key_of w id s (r.header (codes "X-KV-Key"))) [
        | none ↦ (invalid_key_error w id, s)
        | some key ↦
            if is_empty op_id || not (valid_op op_type)
            then (invalid_tx_error (codes "invalid operation"), s)
            else if bytes_eq op_type (codes "PUT")
            then add_put s r p tx_id seq op_id key
            else if ltb_ℤ (pos 0) r.content_length
            then (
              write_error id 400 (codes "BAD_REQUEST") (codes "operation must not include body"),
              s,
            )
            else send_op s p tx_id (new_op seq op_id op_type key [] [])
      ]

  unfoldable pub handle_commit : Server Doc → Request → Principal → Bytes → Response × Server Doc
  handle_commit s r p tx_id =
      let req = w.commit_request (limited (pos (2 ^ 20)) r.body) in
      let (reply, store) = Coordinator.commit w.env s.store p tx_id req.total_ops req.tx_digest in
      let m = s.metrics in
      let m' =
        if is_committed_result reply.result
        then record m { tx_committed = add_one m.tx_committed }
        else m in
      (tx_outcome id (success_status reply.result) reply, record s { store = store; metrics = m' })

  unfoldable pub handle_tx_result : Server Doc → Principal → Bytes → Response × Server Doc
  handle_tx_result s p tx_id =
      let (reply, store) = get_result w.env s.store p tx_id in
      (tx_outcome id 200 reply, record s { store = store })

  abbrev aborted_body : Option Status → Response
  aborted_body status = write_json 200 (tx_aborted (or_zero status).tx_id (or_zero status).status)

  unfoldable pub handle_abort : Server Doc → Principal → Bytes → Response × Server Doc
  handle_abort s p tx_id =
      let (reply, store) = Coordinator.abort w.env s.store p tx_id in
      let s' : Server Doc = record s { store = store } in
      let m = s.metrics in
      elim reply.error [
        | none ↦ (
          aborted_body reply.status,
          record s' { metrics = record m { tx_aborted = add_one m.tx_aborted } },
        )
        | some e ↦ (tx_error id none e, s')
      ]

  -- handleTx, on the parts of the path
  unfoldable pub handle_tx : Server Doc → Request → Principal → List Bytes → Response × Server Doc
  handle_tx s r p (tx_id ∷ action ∷ seq_text ∷ []) =
      if bytes_eq action (codes "ops") && bytes_eq r.method (codes "POST")
      then elim (atoi seq_text) [
        | none ↦ (invalid_tx_error (codes "invalid seq"), s)
        | some seq ↦ handle_add_op s r p tx_id seq
      ]
      else (not_found_page, s)
  handle_tx s r p (tx_id ∷ action ∷ []) =
      if bytes_eq action (codes "commit") && bytes_eq r.method (codes "POST")
      then handle_commit s r p tx_id
      else if bytes_eq action (codes "result") && bytes_eq r.method (codes "GET")
      then handle_tx_result s p tx_id
      else if bytes_eq action (codes "abort") && bytes_eq r.method (codes "POST")
      then handle_abort s p tx_id
      else (not_found_page, s)
  handle_tx s r p _ = (not_found_page, s)
