-- ===== src/Model.antt =====
-- internal/model/model.go, and the sentinel errors of the packages.
-- A time is the number of nanoseconds since 2^63 ms before the Unix epoch, the earliest time that
-- time.UnixMilli can make. Words keep their wrap-around.
use httpkvdb.Base.{
  ℕ, ◌+◌, ◌-◌, ◌*◌, ◌/◌, ◌%◌, ◌^◌, ◌≡◌, refl, ◌⊎◌, inl, inr, Bool, Option, List, ◌==◌, leb,
  if◌then◌else◌,
}
use httpkvdb.Base.Int.{ℤ, pos, negsuc}
use httpkvdb.Base.Bytes.{Bytes}
use httpkvdb.Base.Dict.{Dict}

-- The errors that the code compares with errors.Is, and `io_error` for any other.
pub data Error : Type 0 where
  not_found tx_not_found already_exists invalid_key invalid_json : Error
  invalid_tx forbidden seq_conflict already_committed aborted expired : Error
  invalid_format checksum_mismatch : Error
  unauthorized atomic_closed io_error : Error

-- Go's (value, error), where the value is not used beside an error.
pub data Result {ℓ} (A : Type ℓ) : Type ℓ where
  ok : A → Result A
  err : Error → Result A

abbrev pub Time : Type 0
Time = ℕ

-- January 1 of year 1, the zero time.Time.
abbrev pub zero_time : Time
zero_time = (2 ^ 63 - 62135596800000) * 1000000

-- t.IsZero()
abbrev pub is_zero_time : Time → Bool
is_zero_time t = t == zero_time

-- t.UnixMilli() as the 64 bits of an int64, and time.UnixMilli of such bits.
unfoldable pub unix_milli : Time → ℕ
unix_milli t = (t / 1000000 + 2 ^ 63) % 2 ^ 64

unfoldable pub from_unix_milli : ℕ → Time
from_unix_milli ms = (ms + 2 ^ 63) % 2 ^ 64 * 1000000

-- t.Unix(), the whole seconds since the Unix epoch.
unfoldable pub unix_seconds : Time → ℤ
unix_seconds t =
    let epoch = 2 ^ 63 * 1000000 in
    if leb epoch t then pos ((t - epoch) / 1000000000) else negsuc ((epoch - t - 1) / 1000000000)

pub record Principal : Type 0 where
  pub user_id : Bytes
  pub userspace_id : Bytes
  pub roles : List Bytes
  pub auth_method : Bytes

pub record KvRecord : Type 0 where
  pub userspace_id : Bytes
  pub key : Bytes
  pub value : Bytes
  pub content_type : Bytes
  pub value_type : Bytes
  pub version : ℕ
  pub created_at : Time
  pub updated_at : Time
  pub checksum : Bytes

pub data TxStatus : Type 0 where
  pending waiting_for_ops ready committing committed aborted expired : TxStatus

pub record TxOperation : Type 0 where
  pub tx_id : Bytes
  pub seq : ℤ
  pub op_id : Bytes
  pub op_type : Bytes
  pub key : Bytes
  pub content_type : Bytes
  pub body : Bytes
  pub body_hash : Bytes
  pub received_at : Time

pub record TxOperationResult : Type 0 where
  pub seq : ℤ
  pub op : Bytes
  pub status : ℕ
  pub key : Bytes
  pub content_type : Bytes
  pub value_base64 : Bytes
  pub version : ℕ
  pub error : Bytes

pub record TxResult : Type 0 where
  pub tx_id : Bytes
  pub status : TxStatus
  pub results : List TxOperationResult

pub record Transaction : Type 0 where
  pub tx_id : Bytes
  pub user_id : Bytes
  pub userspace_id : Bytes
  pub total_ops : ℤ
  pub status : TxStatus
  pub created_at : Time
  pub deadline : Time
  pub commit_received : Bool
  pub tx_digest : Bytes
  pub ops : Dict ℤ TxOperation
  pub result : Option TxResult
  pub abort_reason : Bytes

pub data ImportMode : Type 0 where
  replace merge_overwrite merge_skip : ImportMode

pub record ImportResult : Type 0 where
  pub imported : ℕ
  pub skipped : ℕ
  pub replaced : ℕ

-- A step that can fail, and the function that goes on with its value.
infixl 5 ◌>>=◌
abbrev pub ◌>>=◌ {ℓ ℓ'} :
    {Value : Type ℓ} {Next : Type ℓ'} → Result Value → (Value → Result Next) → Result Next
err failure >>= next = err failure
ok value >>= next = next value

-- if bad { return err }
abbrev pub reject_if : Bool → Error → Result (Unit {0})
reject_if bad e = elim bad [ Bool.true ↦ err e | Bool.false ↦ ok tt ]

infixl 5 ◌>>◌
abbrev pub ◌>>◌ {ℓ} : {Next : Type ℓ} → Result (Unit {0}) → Result Next → Result Next
check >> rest = check >>= λ done. rest

-- Inversion of a chain that gave a value.
pub >>=-eq-ok {ℓ ℓ'} :
    {Value : Type ℓ} {Next : Type ℓ'} (step : Result Value) (next : Value → Result Next) {y : Next}
    → (step >>= next) ≡ ok y
    → (x : Value) × (step ≡ ok x) × (next x ≡ ok y)
>>=-eq-ok (err failure) next h = cc
>>=-eq-ok (ok value) next h = (value, refl, h)

pub Result-cases {ℓ} :
    {A : Type ℓ} (r : Result A) → ((a : A) × (r ≡ ok a)) ⊎ ((e : Error) × (r ≡ err e))
Result-cases (ok a) = inl (a, refl)
Result-cases (err e) = inr (e, refl)
