-- ===== src/Codec/Decode.antt =====
-- internal/importexport/decode.go. A reader is the list of the bytes that it has not read.
use httpkvdb.Base.{
  ℕ, zero, suc, ◌+◌, ◌-◌, ◌/◌, ◌^◌, not, ◌||◌, Option, none, some, List, [], ◌∷◌, length, take,
  drop, ltb, ◌==◌, if◌then◌else◌,
}
use httpkvdb.Base.Int.{ℤ}
use httpkvdb.Base.Bytes.{Bytes, codes, bytes_eq}
use httpkvdb.Golang.Crypto.{Std}
use httpkvdb.Model.{
  KvRecord, from_unix_milli, Result, ok, err, invalid_format, checksum_mismatch, reject_if, ◌>>=◌,
  ◌>>◌,
}
use httpkvdb.Validate.{validate_key, validate_value, checksum, raw_sha256}
use httpkvdb.Codec.Words.{wrap, read_big_endian}
use httpkvdb.Codec.Encode.{magic, format_version, value_type_string, value_type_json}

-- A failed read is reported as the format error.
abbrev pub or_invalid {ℓ} : {A : Type ℓ} → Option A → Result A
or_invalid none = err invalid_format
or_invalid (some a) = ok a

-- binary.Read of an integer of `n` bytes
abbrev pub read_word : ℕ → Bytes → Result (ℕ × Bytes)
read_word n r = or_invalid (read_big_endian n 0 r)

-- io.ReadFull of `n` bytes
unfoldable pub read_full : ℕ → Bytes → Option (Bytes × Bytes)
read_full n r = if ltb (length r) n then none else some (take n r, drop n r)

abbrev pub read_byte : Bytes → Option (ℕ × Bytes)
read_byte [] = none
read_byte (b ∷ r) = some (b, r)

abbrev pub max_int : ℕ
max_int = 2 ^ 63 - 1

unfoldable pub read_bounded_bytes : Bytes → ℕ → ℕ → Option (Bytes × Bytes)
unfolding read_full
read_bounded_bytes r len max =
    if ltb max len || ltb (length r) len || ltb max_int len then none else read_full len r

abbrev pub min_encoded_record_len : ℕ
min_encoded_record_len = 4 + 1 + 2 + 1 + 8 + 8 + 8 + 8 + 32

abbrev pub max_content_type_len : ℕ
max_content_type_len = 255

unfoldable pub max_record_count : ℕ → ℕ
max_record_count remaining = remaining / min_encoded_record_len

unfoldable pub value_type_string_from_byte : ℕ → Bytes
value_type_string_from_byte v =
    if v == value_type_string
    then codes "string"
    else if v == value_type_json
    then codes "json"
    else codes "binary"

module _ (std : Std) (max_key max_value : ℤ) where
  -- One round of the loop.
  unfoldable pub decode_record : Bytes → Result (KvRecord × Bytes)
  decode_record r = do
    (key_len, r) ← read_word 4 r
    reject_if (key_len == 0 || ltb (wrap 32 max_key) key_len) invalid_format
    (key, r) ← or_invalid (read_bounded_bytes r key_len (wrap 64 max_key))
    validate_key key max_key
    (ct_len, r) ← read_word 2 r
    (ct, r) ← or_invalid (read_bounded_bytes r ct_len max_content_type_len)
    (vt, r) ← or_invalid (read_byte r)
    (value_len, r) ← read_word 8 r
    reject_if (ltb (wrap 64 max_value) value_len) invalid_format
    (value, r) ← or_invalid (read_bounded_bytes r value_len (wrap 64 max_value))
    (version, r) ← read_word 8 r
    (created_ms, r) ← read_word 8 r
    (updated_ms, r) ← read_word 8 r
    (value_sum, r) ← or_invalid (read_full 32 r)
    reject_if (not (bytes_eq (raw_sha256 std value) value_sum)) checksum_mismatch
    validate_value std ct value
    ok (
      record {
        userspace_id = [];
        key = key;
        value = value;
        content_type = ct;
        value_type = value_type_string_from_byte vt;
        version = version;
        created_at = from_unix_milli created_ms;
        updated_at = from_unix_milli updated_ms;
        checksum = checksum std value;
      },
      r,
    )

  -- for i := uint64(0); i < count; i++
  unfoldable pub decode_records : ℕ → Bytes → Result (List KvRecord × Bytes)
  decode_records zero r = ok ([], r)
  decode_records (suc n) r = do
    (rec, r) ← decode_record r
    (records, r) ← decode_records n r
    ok (rec ∷ records, r)

  unfoldable pub decode_payload : Bytes → Result (List KvRecord)
  decode_payload r = do
    (m, r) ← or_invalid (read_full 8 r)
    reject_if (not (bytes_eq m magic)) invalid_format
    (version, r) ← read_word 4 r
    reject_if (not (version == format_version)) invalid_format
    (created, r) ← read_word 8 r
    (count, r) ← read_word 8 r
    reject_if (ltb (max_record_count (length r)) count) invalid_format
    (records, r) ← decode_records count r
    reject_if (not (length r == 0)) invalid_format
    ok records

  unfoldable pub decode : Bytes → Result (List KvRecord)
  decode input =
      let split = length input - 32 in
      let payload = take split input in
      let footer = drop split input in
      reject_if (ltb (length input) (8 + 4 + 8 + 8 + 32)) invalid_format
      >> reject_if (not (bytes_eq (std.sha256 payload) footer)) checksum_mismatch
      >> decode_payload payload
