-- ===== src/Codec/Refused.antt =====
-- Long content types in `encode` and `decode`.
use httpkvdb.Base.{
  ℕ, ◌%◌, ◌^◌, ◌<◌, ◌≡◌, refl, ◌∙◌, false, ◌||◌, none, List, [], ◌∷◌, ◌++◌, append_assoc, length,
  All, ltb, ◌==◌, arith,
}
use httpkvdb.Base.Int.{pos}
use httpkvdb.Base.Bytes.{Bytes, bytes_eq}
use httpkvdb.Golang.Crypto.{Std}
use httpkvdb.Model.{KvRecord, Time, unix_milli, ok, err, invalid_format}
use httpkvdb.Validate.{validate_key}
use httpkvdb.Codec.Encode.{
  encode_record, encode_records, encode_body, encode, magic, format_version,
}
use httpkvdb.Codec.Decode.{
  read_bounded_bytes, decode_record, decode_records, decode_payload, decode,
}
use httpkvdb.Codec.RoundTrip.{
  read_word_lem, read_full_lem, read_bounded_lem, milli-lt, validate_key_bounds, IsExportable,
  decode_sealed, encode_body-length, decode_record_lem,
}

-- A record whose content type is too long for the reader, and not for its field of 16 bits.
pub record IsLong (max_key : ℕ) (rec : KvRecord) : Type 0 where
  pub key_valid : validate_key rec.key (pos max_key) ≡ ok tt
  pub over : 255 < length rec.content_type
  pub within : length rec.content_type < 2 ^ 16

read_too_long : (r : Bytes) (len max : ℕ) → max < len → read_bounded_bytes r len max ≡ none
unfolding read_bounded_bytes
read_too_long r len max h = ground arith

module _ (std : Std) (max_key max_value : ℕ) (key_limit : max_key < 2 ^ 32)
    (value_limit : max_value < 2 ^ 63) where
  decode_record_long :
      (rec : KvRecord) (rest : Bytes)
      → IsLong max_key rec
      → decode_record std (pos max_key) (pos max_value) (encode_record std rec ++ rest)
        ≡ err invalid_format
  unfolding decode_record encode_record
  decode_record_long rec rest x =
      let (key_pos, key_fits) = validate_key_bounds rec.key max_key x.key_valid in
      let key_ok : (length rec.key == 0 || ltb (max_key % 2 ^ 32) (length rec.key)) ≡ false =
        ground arith in
      simp append_assoc (
        rw (
          read_word_lem 4 (length rec.key) _ (omega arith),
          key_ok,
          read_bounded_lem rec.key _ (max_key % 2 ^ 64) (omega arith) (omega arith),
          x.key_valid,
          read_word_lem 2 (length rec.content_type) _ (omega (arith, x.within)),
          read_too_long _ (length rec.content_type) 255 x.over,
        ))

  decode_records_long :
      (front : List KvRecord) (rec : KvRecord) (others : List KvRecord)
      → All (IsExportable std max_key max_value) front
      → IsLong max_key rec
      → decode_records std
          (pos max_key)
          (pos max_value)
          (length (front ++ rec ∷ others))
          (encode_records std (front ++ rec ∷ others))
        ≡ err invalid_format
  unfolding decode_records encode_records
  decode_records_long [] rec others xs x = rw (decode_record_long rec (encode_records std others) x)
  decode_records_long (first ∷ front) rec others (y, ys) x = rw (
    decode_record_lem std max_key max_value key_limit value_limit first _ y,
    decode_records_long front rec others ys x,
  )

  decode_payload_long :
      (now : Time) (front : List KvRecord) (rec : KvRecord) (others : List KvRecord)
      → length (front ++ rec ∷ others) < 2 ^ 64
      → All (IsExportable std max_key max_value) front
      → IsLong max_key rec
      → decode_payload std
          (pos max_key)
          (pos max_value)
          (encode_body std now (front ++ rec ∷ others))
        ≡ err invalid_format
  unfolding decode_payload encode_body bytes_eq
  decode_payload_long now front rec others few xs x =
      rw
        (
          read_full_lem magic _ 8 refl,
          read_word_lem 4 format_version _ (omega arith),
          read_word_lem 8 (unix_milli now) _ (milli-lt now),
          read_word_lem 8 (length (front ++ rec ∷ others)) _ (omega arith),
          decode_records_long front rec others xs x,
        )
        (ground arith)

  -- A content type of more than 255 bytes, and fewer than 2^16, makes an export unreadable:
  -- whatever records stand behind it, and with exportable ones before it, the import fails as a
  -- whole. The key of that record is valid under the limit of the importer, there are fewer than
  -- 2^64 records, and the limits fit into the fields of the format.
  pub decode-encode_long :
      (now : Time) (front : List KvRecord) (rec : KvRecord) (others : List KvRecord)
      → length (front ++ rec ∷ others) < 2 ^ 64
      → All (IsExportable std max_key max_value) front
      → IsLong max_key rec
      → decode std (pos max_key) (pos max_value) (encode std now (front ++ rec ∷ others))
        ≡ err invalid_format
  unfolding encode
  decode-encode_long now front rec others few xs x =
      decode_sealed std (pos max_key) (pos max_value) (encode_body std now (front ++ rec ∷ others))
        (encode_body-length std now (front ++ rec ∷ others))
      ∙ decode_payload_long now front rec others few xs x
