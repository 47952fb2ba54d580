-- ===== src/Validate.antt =====
-- internal/storage/validate.go
use httpkvdb.Base.{
  ℕ, Bool, true, false, not, ◌&&◌, ◌||◌, [], ◌∷◌, ◌++◌, length, leb, ◌==◌, if◌then◌else◌,
}
use httpkvdb.Base.Int.{ℤ, pos, ltb_ℤ}
use httpkvdb.Base.Bytes.{Bytes, codes, bytes_eq, is_empty}
use httpkvdb.Golang.Text.{before, to_lower, trim_space}
use httpkvdb.Golang.Utf8.{valid_string}
use httpkvdb.Golang.Encoding.{hex}
use httpkvdb.Golang.Crypto.{Std}
use httpkvdb.Model.{Result, invalid_key, invalid_json, reject_if}

unfoldable pub validate_key : Bytes → ℤ → Result (Unit {0})
validate_key key max =
    reject_if (is_empty key || ltb_ℤ max (pos (length key)) || not (valid_string key)) invalid_key

abbrev pub is_alnum : ℕ → Bool
is_alnum c = (leb b'A' c && leb c b'Z') || (leb b'a' c && leb c b'z') || (leb b'0' c && leb c b'9')

-- [A-Za-z0-9._-]
abbrev pub is_segment_char : ℕ → Bool
is_segment_char c = is_alnum c || c == b'.' || c == b'_' || c == b'-'

unfoldable pub all_chars : (ℕ → Bool) → Bytes → Bool
all_chars p [] = true
all_chars p (c ∷ cs) = p c && all_chars p cs

-- ^[A-Za-z0-9][A-Za-z0-9._-]{0,127}$
unfoldable pub match_userspace_id : Bytes → Bool
match_userspace_id [] = false
match_userspace_id (c ∷ cs) = is_alnum c && all_chars is_segment_char cs && leb (length cs) 127

unfoldable pub validate_userspace_id : Bytes → Result (Unit {0})
validate_userspace_id u =
    reject_if (bytes_eq u (codes ".") || bytes_eq u (codes "..") || not (match_userspace_id u))
      invalid_key

-- The media type before the first `;`, trimmed and in lower case.
abbrev pub media_type : Bytes → Bytes
media_type content_type = to_lower (trim_space (before b';' content_type))

unfoldable pub value_type : Bytes → Bytes
value_type content_type =
    let ct = media_type content_type in
    if bytes_eq ct (codes "text/plain")
    then codes "string"
    else if bytes_eq ct (codes "application/json")
    then codes "json"
    else if bytes_eq ct (codes "application/octet-stream")
    then codes "binary"
    else codes "binary"

module _ (std : Std) where
  unfoldable pub validate_value : Bytes → Bytes → Result (Unit {0})
  validate_value content_type body =
      reject_if (bytes_eq (value_type content_type) (codes "json") && not (std.json_valid body))
        invalid_json

  unfoldable pub checksum : Bytes → Bytes
  checksum value = codes "sha256:" ++ hex (std.sha256 value)

  unfoldable pub raw_sha256 : Bytes → Bytes
  raw_sha256 value = std.sha256 value
