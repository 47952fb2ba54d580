-- ===== src/Tx/Spec.antt =====
-- What a transaction promises, on one userspace as a function from keys to values: its operations
-- one after the other, each seeing what those before it wrote; all of it, or nothing.
use httpkvdb.Base.{ℕ, Bool, true, false, Option, none, some, List, [], ◌∷◌, if◌then◌else◌}
use httpkvdb.Base.Bytes.{Bytes, bytes_eq}
use httpkvdb.Golang.Encoding.{base64_std}
use httpkvdb.Model.{KvRecord, Result, ok, err, TxOperation, TxOperationResult}
use httpkvdb.Storage.Snapshot.{Snapshot, get_from}
use httpkvdb.Tx.Execute.{OpKind, put, get, head, exists, delete, other, op_kind}

-- The value under a key, and its content type.
abbrev pub View : Type 0
View = Bytes → Option (Bytes × Bytes)

abbrev pub content_of : Result KvRecord → Option (Bytes × Bytes)
content_of (ok rec) = some (rec.value, rec.content_type)
content_of (err e) = none

-- The view of a userspace.
unfoldable pub view_of : Snapshot → Bytes → View
view_of d u key = content_of (get_from d u key)

abbrev pub write : View → Bytes → Option (Bytes × Bytes) → View
write v key content j = if bytes_eq key j then content else v j

-- What one operation tells its client.
pub record Answer : Type 0 where
  pub status : ℕ
  pub content_type : Bytes
  pub value_base64 : Bytes

abbrev pub plain : ℕ → Answer
plain status = record { status = status; content_type = []; value_base64 = [] }

abbrev pub answer_of : TxOperationResult → Answer
answer_of item = record {
  status = item.status;
  content_type = item.content_type;
  value_base64 = item.value_base64;
}

abbrev read_answer : Bool → View → Option (Bytes × Bytes) → Option (Answer × View)
read_answer with_value v none = none
read_answer with_value v (some (value, content_type)) = some (
  record {
    status = 200;
    content_type = content_type;
    value_base64 = if with_value then base64_std value else [];
  },
  v,
)

abbrev exists_answer : Option (Bytes × Bytes) → Answer
exists_answer none = plain 404
exists_answer (some content) = plain 200

abbrev delete_answer : View → Bytes → Option (Bytes × Bytes) → Option (Answer × View)
delete_answer v key none = none
delete_answer v key (some content) = some (plain 204, write v key none)

-- No answer: the transaction fails.
unfoldable pub spec_op : OpKind → TxOperation → View → Option (Answer × View)
spec_op put op v = some (plain 200, write v op.key (some (op.body, op.content_type)))
spec_op get op v = read_answer true v (v op.key)
spec_op head op v = read_answer false v (v op.key)
spec_op exists op v = some (exists_answer (v op.key), v)
spec_op delete op v = delete_answer v op.key (v op.key)
spec_op other op v = none

abbrev pub after {ℓ} : {A : Type ℓ} → Answer → Option (List Answer × A) → Option (List Answer × A)
after a none = none
after a (some (answers, v)) = some (a ∷ answers, v)

unfoldable pub spec_run : List TxOperation → View → Option (List Answer × View)
spec_run [] v = some ([], v)
spec_run (op ∷ ops) v = elim (spec_op (op_kind op.op_type) op v) [
  | none ↦ none
  | some (a, v') ↦ after a (spec_run ops v')
]
