-- ===== src/Tests/Codec.antt =====
-- An export of one record, read back, and one that cannot be read.
use httpkvdb.Base.{◌≡◌, refl, [], ◌∷◌, ◌++◌, All, replicate, arith}
use httpkvdb.Base.Int.{pos}
use httpkvdb.Base.Bytes.{Bytes, bytes_eq}
use httpkvdb.Golang.Crypto.{toy_std}
use httpkvdb.Model.{KvRecord, ok, err, invalid_format}
use httpkvdb.Validate.{validate_key, validate_value, value_type, media_type}
use httpkvdb.Golang.Text.{before, to_lower, trim_space}
use httpkvdb.Golang.Utf8.{valid_string}
use httpkvdb.Codec.Encode.{encode}
use httpkvdb.Codec.Decode.{decode}
use httpkvdb.Codec.RoundTrip.{IsExportable, exported, decode-encode}
use httpkvdb.Codec.Sound.{IsDecoded, decode_sound}
use httpkvdb.Codec.Refused.{IsLong, decode-encode_long}
use httpkvdb.Tests.World.{greeting}

greeting-IsExportable : IsExportable toy_std 512 1000 greeting
unfolding validate_key validate_value valid_string bytes_eq value_type media_type to_lower
    trim_space before
greeting-IsExportable = record {
  key_valid = refl;
  content_type_fits = omega arith;
  value_fits = omega arith;
  value_valid = refl;
  version_fits = omega arith;
  created_fits = omega arith;
  updated_fits = omega arith;
}

decode-encode_example :
    decode toy_std (pos 512) (pos 1000) (encode toy_std 9000000 (greeting ∷ []))
    ≡ ok (exported toy_std greeting ∷ [])
decode-encode_example =
    decode-encode toy_std 512 1000 (omega arith) (omega arith) 9000000 (greeting ∷ []) (omega arith)
      (greeting-IsExportable, tt)

decode_sound_example :
    ((payload : Bytes) × (encode toy_std 9000000 (greeting ∷ [])
        ≡ payload ++ toy_std.sha256 payload))
    × All (IsDecoded toy_std (pos 512) (pos 1000)) (exported toy_std greeting ∷ [])
decode_sound_example =
    decode_sound toy_std (pos 512) (pos 1000) (encode toy_std 9000000 (greeting ∷ []))
      (exported toy_std greeting ∷ []) decode-encode_example

abbrev overlong : KvRecord
overlong = record greeting { content_type = replicate 300 97 }

overlong-IsLong : IsLong 512 overlong
unfolding validate_key valid_string
overlong-IsLong = record { key_valid = refl; over = omega arith; within = omega arith }

decode-encode_long_example :
    decode toy_std (pos 512) (pos 1000) (encode toy_std 9000000 (greeting ∷ overlong ∷ []))
    ≡ err invalid_format
decode-encode_long_example =
    decode-encode_long toy_std 512 1000 (omega arith) (omega arith) 9000000 (greeting ∷ []) overlong
      [] (omega arith) (greeting-IsExportable, tt) overlong-IsLong
