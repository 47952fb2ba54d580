-- ===== src/Codec/RoundTrip.antt =====
-- What `decode` reads from what `encode` wrote.
use httpkvdb.Base.{
  ℕ, ◌-◌, ◌*◌, ◌/◌, ◌%◌, ◌^◌, ◌≤◌, ◌<◌, ◌≡◌, refl, ap, ◌∙◌, true, false, ◌||◌, some, List, [], ◌∷◌,
  ◌++◌, map, append_assoc, length, length-append, take-append, drop-append, All, ltb, ◌==◌, arith,
  if◌then◌else◌,
}
use httpkvdb.Base.Int.{ℤ, pos}
use httpkvdb.Base.Bytes.{Bytes, codes, bytes_eq, bytes_eq_iff, bytes_key}
use httpkvdb.Golang.Crypto.{Std}
use httpkvdb.Model.{KvRecord, Time, unix_milli, from_unix_milli, ok}
use httpkvdb.Validate.{validate_key, validate_value, checksum, raw_sha256}
use httpkvdb.Codec.Words.{big_endian, read_big_endian, read-big_endian, length-big_endian}
use httpkvdb.Codec.Encode.{
  magic, format_version, value_type_byte, encode_record, encode_records, encode_body, encode,
}
use httpkvdb.Codec.Decode.{
  read_full, read_bounded_bytes, max_record_count, value_type_string_from_byte, decode_record,
  decode_records, decode_payload, decode, max_int,
}
use native.Mathlib.Nat.{mod-eq_of_lt}

pub read_word_lem :
    (n v : ℕ) (rest : Bytes)
    → v < 256 ^ n
    → read_big_endian n 0 (big_endian n v ++ rest) ≡ some (v, rest)
read_word_lem n v rest h =
    read-big_endian n 0 v rest ∙ ap (λ (t : ℕ). some (t, rest)) (omega (arith, mod-eq_of_lt h))

pub read_full_lem :
    (xs rest : Bytes) (n : ℕ) → length xs ≡ n → read_full n (xs ++ rest) ≡ some (xs, rest)
unfolding read_full
read_full_lem xs rest n h =
    rw (← h, take-append, drop-append) (ground (arith, length-append xs rest))

pub read_bounded_lem :
    (xs rest : Bytes) (max : ℕ)
    → length xs ≤ max
    → length xs ≤ max_int
    → read_bounded_bytes (xs ++ rest) (length xs) max ≡ some (xs, rest)
unfolding read_bounded_bytes
read_bounded_lem xs rest max h hm =
    ground (arith, length-append xs rest, take-append xs rest, drop-append xs rest)

-- The type that comes back: the two that have a byte of their own, and `binary` for any other.
unfoldable pub known_type : Bytes → Bytes
known_type v =
    if bytes_eq v (codes "string") || bytes_eq v (codes "json") then v else codes "binary"

type_byte_lem : (v : Bytes) → value_type_string_from_byte (value_type_byte v) ≡ known_type v
unfolding value_type_byte value_type_string_from_byte known_type
type_byte_lem v = ground (arith, bytes_eq_iff v (codes "string"), bytes_eq_iff v (codes "json"))

-- A time to the millisecond.
abbrev pub to_millisecond : Time → Time
to_millisecond t = t / 1000000 * 1000000

milli_lem : (t : Time) → t / 1000000 < 2 ^ 64 → from_unix_milli (unix_milli t) ≡ to_millisecond t
unfolding unix_milli from_unix_milli
milli_lem t h = omega arith

pub milli-lt : (t : Time) → unix_milli t < 256 ^ 8
unfolding unix_milli
milli-lt t = omega arith

pub hash-length : (std : Std) (v : Bytes) → length (raw_sha256 std v) ≡ 32
unfolding raw_sha256
hash-length std v = std.sha256_length v

pub bytes-beq_refl : (b : Bytes) → bytes_eq b b ≡ true
bytes-beq_refl b = (bytes_eq_iff b b).1 refl

-- A record that the format can carry, within the limits of the importing side.
pub record IsExportable (std : Std) (max_key max_value : ℕ) (rec : KvRecord) : Type 0 where
  pub key_valid : validate_key rec.key (pos max_key) ≡ ok tt
  pub content_type_fits : length rec.content_type ≤ 255
  pub value_fits : length rec.value ≤ max_value
  pub value_valid : validate_value std rec.content_type rec.value ≡ ok tt
  pub version_fits : rec.version < 2 ^ 64
  pub created_fits : rec.created_at / 1000000 < 2 ^ 64
  pub updated_fits : rec.updated_at / 1000000 < 2 ^ 64

-- What is read back: the userspace is left out, times are to the millisecond, the checksum is anew.
unfoldable pub exported : Std → KvRecord → KvRecord
exported std rec = record rec {
  userspace_id = [];
  value_type = known_type rec.value_type;
  created_at = to_millisecond rec.created_at;
  updated_at = to_millisecond rec.updated_at;
  checksum = checksum std rec.value;
}

-- A valid key has one to `max` bytes.
pub validate_key_bounds :
    (key : Bytes) (max : ℕ)
    → validate_key key (pos max) ≡ ok tt
    → (0 < length key) × (length key ≤ max)
unfolding validate_key
validate_key_bounds [] max h = cc
validate_key_bounds (b ∷ bs) max h = ground arith

-- The footer of a body is accepted, and the payload is the body.
pub decode_sealed :
    (std : Std) (max_key max_value : ℤ) (body : Bytes)
    → 28 ≤ length body
    → decode std max_key max_value (body ++ std.sha256 body)
      ≡ decode_payload std max_key max_value body
unfolding decode
decode_sealed std max_key max_value body h = rw (
  whole,
  take-append body (std.sha256 body),
  drop-append body (std.sha256 body),
  bytes-beq_refl (std.sha256 body),
  long,
)
  where
    whole : length (body ++ std.sha256 body) - 32 ≡ length body
    whole = ground (arith, length-append body (std.sha256 body), std.sha256_length body)

    long : ltb (length (body ++ std.sha256 body)) 60 ≡ false
    long = ground (arith, length-append body (std.sha256 body), std.sha256_length body)

pub encode_body-length :
    (std : Std) (now : Time) (records : List KvRecord) → 28 ≤ length (encode_body std now records)
unfolding encode_body
encode_body-length std now records = simp (length-append, length-big_endian) (omega arith)

module _ (std : Std) (max_key max_value : ℕ) (key_limit : max_key < 2 ^ 32)
    (value_limit : max_value < 2 ^ 63) where
  pub decode_record_lem :
      (rec : KvRecord) (rest : Bytes)
      → IsExportable std max_key max_value rec
      → decode_record std (pos max_key) (pos max_value) (encode_record std rec ++ rest)
        ≡ ok (exported std rec, rest)
  unfolding decode_record encode_record exported
  decode_record_lem rec rest x =
      let (key_pos, key_fits) = validate_key_bounds rec.key max_key x.key_valid in
      let key_ok : (length rec.key == 0 || ltb (max_key % 2 ^ 32) (length rec.key)) ≡ false =
        ground arith in
      let value_ok : ltb (max_value % 2 ^ 64) (length rec.value) ≡ false =
        ground (arith, x.value_fits) in
      simp append_assoc (
        rw (
          read_word_lem 4 (length rec.key) _ (omega arith),
          key_ok,
          read_bounded_lem rec.key _ (max_key % 2 ^ 64) (omega arith) (omega arith),
          x.key_valid,
          read_word_lem 2 (length rec.content_type) _ (omega (arith, x.content_type_fits)),
          read_bounded_lem rec.content_type _ 255 x.content_type_fits
              (omega (arith, x.content_type_fits)),
          read_word_lem 8 (length rec.value) _ (omega (arith, x.value_fits)),
          value_ok,
          read_bounded_lem rec.value _ (max_value % 2 ^ 64) (omega (arith, x.value_fits))
              (omega (arith, x.value_fits)),
          read_word_lem 8 rec.version _ (omega (arith, x.version_fits)),
          read_word_lem 8 (unix_milli rec.created_at) _ (milli-lt rec.created_at),
          read_word_lem 8 (unix_milli rec.updated_at) _ (milli-lt rec.updated_at),
          read_full_lem (raw_sha256 std rec.value) rest 32 (hash-length std rec.value),
          bytes-beq_refl (raw_sha256 std rec.value),
          x.value_valid,
          type_byte_lem rec.value_type,
          milli_lem rec.created_at x.created_fits,
          milli_lem rec.updated_at x.updated_fits,
        ))

  decode_records_lem :
      (records : List KvRecord)
      → All (IsExportable std max_key max_value) records
      → decode_records std
          (pos max_key)
          (pos max_value)
          (length records)
          (encode_records std records)
        ≡ ok (map (exported std) records, [])
  unfolding decode_records encode_records
  decode_records_lem [] x = refl
  decode_records_lem (rec ∷ records) (x, xs) =
      rw (decode_record_lem rec (encode_records std records) x, decode_records_lem records xs)

  encode_record-length :
      (rec : KvRecord)
      → IsExportable std max_key max_value rec
      → 72 ≤ length (encode_record std rec)
  unfolding encode_record
  encode_record-length rec x =
      let (key_pos, _) = validate_key_bounds rec.key max_key x.key_valid in
      simp (length-append, length-big_endian, hash-length) (omega arith)

  -- The guard on the count never refuses what `encode` wrote.
  encode_records-length :
      (records : List KvRecord)
      → All (IsExportable std max_key max_value) records
      → 72 * length records ≤ length (encode_records std records)
  unfolding encode_records
  encode_records-length [] x = omega arith
  encode_records-length (rec ∷ records) (x, xs) =
      rw length-append (omega (arith, encode_record-length rec x, encode_records-length records xs))

  decode_payload_lem :
      (now : Time) (records : List KvRecord)
      → length records < 2 ^ 64
      → All (IsExportable std max_key max_value) records
      → decode_payload std (pos max_key) (pos max_value) (encode_body std now records)
        ≡ ok (map (exported std) records)
  unfolding decode_payload encode_body max_record_count bytes_eq
  decode_payload_lem now records few xs = rw (
    read_full_lem magic _ 8 refl,
    read_word_lem 4 format_version _ (omega arith),
    read_word_lem 8 (unix_milli now) _ (milli-lt now),
    read_word_lem 8 (length records) _ (omega arith),
    count_fits,
    decode_records_lem records xs,
  )
    where
      count_fits : ltb (length (encode_records std records) / 72) (length records) ≡ false
      count_fits = ground (arith, encode_records-length records xs)

  -- Importing what was exported gives back the records, in order, for fewer than 2^64 records
  -- that are within the limits of the importing side and the fields of the format: keys, values,
  -- content types and versions as they were, times to the millisecond, value types of the three
  -- known ones, checksums anew, and no userspace.
  pub decode-encode :
      (now : Time) (records : List KvRecord)
      → length records < 2 ^ 64
      → All (IsExportable std max_key max_value) records
      → decode std (pos max_key) (pos max_value) (encode std now records)
        ≡ ok (map (exported std) records)
  unfolding encode
  decode-encode now records few xs =
      decode_sealed std (pos max_key) (pos max_value) (encode_body std now records)
        (encode_body-length std now records)
      ∙ decode_payload_lem now records few xs
