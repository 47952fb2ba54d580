-- ===== src/Codec/Sound.antt =====
-- What the code accepts of an import.
use httpkvdb.Base.{
  ℕ, zero, suc, ◌-◌, ◌≤◌, ◌≡◌, sym, some, List, [], ◌∷◌, ◌++◌, length, take, drop, take-append-drop,
  All, arith,
}
use httpkvdb.Base.Int.{ℤ}
use httpkvdb.Base.Bytes.{Bytes, bytes_eq_iff}
use httpkvdb.Golang.Crypto.{Std}
use httpkvdb.Model.{KvRecord, ok, >>=-eq-ok}
use httpkvdb.Validate.{validate_key, validate_value, checksum}
use httpkvdb.Codec.Words.{wrap}
use httpkvdb.Codec.Decode.{
  read_full, read_bounded_bytes, decode_record, decode_records, decode_payload, decode,
}

-- What every decoded record satisfies.
pub record IsDecoded (std : Std) (max_key max_value : ℤ) (rec : KvRecord) : Type 0 where
  pub key_valid : validate_key rec.key max_key ≡ ok tt
  pub content_type_fits : length rec.content_type ≤ 255
  pub value_fits : length rec.value ≤ wrap 64 max_value
  pub value_valid : validate_value std rec.content_type rec.value ≡ ok tt
  pub checksum_right : rec.checksum ≡ checksum std rec.value

length-take-le : (n : ℕ) (xs : Bytes) → length (take n xs) ≤ n
length-take-le zero xs = omega arith
length-take-le (suc n) [] = omega arith
length-take-le (suc n) (x ∷ xs) = omega (arith, length-take-le n xs)

read_bounded-le :
    (r : Bytes) (len max : ℕ) (xs rest : Bytes)
    → read_bounded_bytes r len max ≡ some (xs, rest)
    → length xs ≤ max
unfolding read_bounded_bytes read_full
read_bounded-le r len max xs rest h = ground (arith, length-take-le len r)

module _ (std : Std) (max_key max_value : ℤ) where
  decode_record-fits :
      (r rest : Bytes) (rec : KvRecord)
      → decode_record std max_key max_value r ≡ ok (rec, rest)
      → (length rec.content_type ≤ 255) × (length rec.value ≤ wrap 64 max_value)
  unfolding decode_record
  decode_record-fits r rest rec h = grind (arith, read_bounded-le)

  decode_record-IsDecoded :
      (r rest : Bytes) (rec : KvRecord)
      → decode_record std max_key max_value r ≡ ok (rec, rest)
      → IsDecoded std max_key max_value rec
  unfolding decode_record
  decode_record-IsDecoded r rest rec h =
      let (ct, v) = decode_record-fits r rest rec h in ground arith

  decode_records-IsDecoded :
      (n : ℕ) (r rest : Bytes) (records : List KvRecord)
      → decode_records std max_key max_value n r ≡ ok (records, rest)
      → All (IsDecoded std max_key max_value) records
  unfolding decode_records
  decode_records-IsDecoded zero r rest [] h = tt
  decode_records-IsDecoded zero r rest (rec ∷ records) h = cc
  decode_records-IsDecoded (suc n) r rest [] h = ground arith
  decode_records-IsDecoded (suc n) r rest (rec ∷ records) h =
      let ((first, r1), e1, k1) = >>=-eq-ok (decode_record std max_key max_value r) _ h in
      let ((others, r2), e2, k2) = >>=-eq-ok (decode_records std max_key max_value n r1) _ k1 in
      let e3 : decode_record std max_key max_value r ≡ ok (rec, r1) = cc in
      let e4 : decode_records std max_key max_value n r1 ≡ ok (records, r2) = cc in
      (decode_record-IsDecoded r r1 rec e3, decode_records-IsDecoded n r1 r2 records e4)

  decode_payload-IsDecoded :
      (r : Bytes) (records : List KvRecord)
      → decode_payload std max_key max_value r ≡ ok records
      → All (IsDecoded std max_key max_value) records
  unfolding decode_payload
  decode_payload-IsDecoded r records h = grind (arith, decode_records-IsDecoded)

  -- Whatever bytes are given to it, an accepted import is a payload behind which stands its
  -- SHA-256, and each of its records has a valid key, a content type of at most 255 bytes, a
  -- value within the limit and valid for its content type, and the checksum of that value.
  pub decode_sound :
      (input : Bytes) (records : List KvRecord)
      → decode std max_key max_value input ≡ ok records
      → ((payload : Bytes) × (input ≡ payload ++ std.sha256 payload))
        × All (IsDecoded std max_key max_value) records
  unfolding decode
  decode_sound input records h =
      let split = length input - 32 in
      let payload = take split input in
      let footer = drop split input in
      let read : decode_payload std max_key max_value payload ≡ ok records = ground arith in
      let sealed : std.sha256 payload ≡ footer =
        ground (arith, bytes_eq_iff (std.sha256 payload) footer) in
      (
        (payload, rw sealed (sym (take-append-drop split input))),
        decode_payload-IsDecoded payload records read,
      )
