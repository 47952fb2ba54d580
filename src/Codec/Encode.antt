-- ===== src/Codec/Encode.antt =====
-- internal/importexport/encode.go and format.go
use httpkvdb.Base.{ℕ, List, [], ◌∷◌, ◌++◌, length, if◌then◌else◌}
use httpkvdb.Base.Bytes.{Bytes, codes, bytes_eq}
use httpkvdb.Golang.Crypto.{Std}
use httpkvdb.Model.{KvRecord, Time, unix_milli}
use httpkvdb.Validate.{raw_sha256}
use httpkvdb.Codec.Words.{big_endian}

abbrev pub magic : Bytes
magic = codes "KVHTTP01"

abbrev pub format_version : ℕ
format_version = 1

abbrev pub value_type_string : ℕ
value_type_string = 1

abbrev pub value_type_json : ℕ
value_type_json = 2

abbrev pub value_type_binary : ℕ
value_type_binary = 3

unfoldable pub value_type_byte : Bytes → ℕ
value_type_byte v =
    if bytes_eq v (codes "string")
    then value_type_string
    else if bytes_eq v (codes "json")
    then value_type_json
    else value_type_binary

module _ (std : Std) where
  -- The body of the loop: what it appends for one record.
  unfoldable pub encode_record : KvRecord → Bytes
  encode_record rec =
      big_endian 4 (length rec.key)
      ++ (rec.key
          ++ (big_endian 2 (length rec.content_type)
              ++ (rec.content_type
                  ++ (value_type_byte rec.value_type
                      ∷ (big_endian 8 (length rec.value)
                          ++ (rec.value
                              ++ (big_endian 8 rec.version
                                  ++ (big_endian 8 (unix_milli rec.created_at)
                                      ++ (big_endian 8 (unix_milli rec.updated_at)
                                          ++ raw_sha256 std rec.value)))))))))

  unfoldable pub encode_records : List KvRecord → Bytes
  encode_records [] = []
  encode_records (rec ∷ records) = encode_record rec ++ encode_records records

  -- The buffer before the footer.
  unfoldable pub encode_body : Time → List KvRecord → Bytes
  encode_body now records =
      magic
      ++ (big_endian 4 format_version
          ++ (big_endian 8 (unix_milli now)
              ++ (big_endian 8 (length records) ++ encode_records records)))

  unfoldable pub encode : Time → List KvRecord → Bytes
  encode now records = let body = encode_body now records in body ++ std.sha256 body
