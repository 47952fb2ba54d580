-- ===== src/Golang/Encoding.antt =====
-- encoding/hex.EncodeToString; encoding/base64 StdEncoding and RawURLEncoding.
use httpkvdb.Base.{
  ℕ, zero, suc, ◌+◌, ◌-◌, ◌*◌, ◌/◌, ◌%◌, ◌≡◌, refl, ◌&&◌, ◌||◌, Option, none, some, [], ◌∷◌, leb,
  ltb, ◌==◌, if◌then◌else◌,
}
use httpkvdb.Base.Bytes.{Bytes, codes}

abbrev hex_digit : ℕ → ℕ
hex_digit d = if ltb d 10 then b'0' + d else b'a' + (d - 10)

unfoldable pub hex : Bytes → Bytes
hex [] = []
hex (b ∷ bs) = hex_digit (b / 16) ∷ hex_digit (b % 16) ∷ hex bs

-- The 64 digits, but for the last two.
abbrev pub base64_digit : ℕ → ℕ → ℕ → ℕ
base64_digit d62 d63 d =
    if ltb d 26
    then b'A' + d
    else if ltb d 52
    then b'a' + (d - 26)
    else if ltb d 62
    then b'0' + (d - 52)
    else if d == 62
    then d62
    else d63

-- Three bytes are four digits; `pad` is what follows a last group of one or two bytes.
unfoldable pub base64 : (ℕ → ℕ) → (ℕ → Bytes) → Bytes → Bytes
base64 digit pad [] = []
base64 digit pad (a ∷ []) = digit (a / 4) ∷ digit (a % 4 * 16) ∷ pad 2
base64 digit pad (a ∷ b ∷ []) =
    digit (a / 4) ∷ digit (a % 4 * 16 + b / 16) ∷ digit (b % 16 * 4) ∷ pad 1
base64 digit pad (a ∷ b ∷ c ∷ r) =
    digit (a / 4)
    ∷ digit (a % 4 * 16 + b / 16)
    ∷ digit (b % 16 * 4 + c / 64)
    ∷ digit (c % 64)
    ∷ base64 digit pad r

abbrev padding : ℕ → Bytes
padding zero = []
padding (suc n) = b'=' ∷ padding n

unfoldable pub base64_std : Bytes → Bytes
unfolding base64
base64_std = base64 (base64_digit b'+' b'/') padding

unfoldable pub base64_raw_url : Bytes → Bytes
unfolding base64
base64_raw_url = base64 (base64_digit b'-' b'_') (λ n. [])

-- RawURLEncoding.DecodeString: line ends are passed over, bits behind the last byte are not looked
-- at, and `none` is a CorruptInputError.
abbrev url_value : ℕ → Option ℕ
url_value c =
    if leb b'A' c && leb c b'Z'
    then some (c - b'A')
    else if leb b'a' c && leb c b'z'
    then some (c - b'a' + 26)
    else if leb b'0' c && leb c b'9'
    then some (c - b'0' + 52)
    else if c == b'-'
    then some 62
    else if c == b'_'
    then some 63
    else none

unfoldable pub url_values : Bytes → Option Bytes
url_values [] = some []
url_values (c ∷ cs) =
    let rest = url_values cs in
    let more : Option Bytes = elim (url_value c) [
      | none ↦ none
      | some v ↦ elim rest [ none ↦ none | some vs ↦ some (v ∷ vs) ]
    ] in
    if c == 13 || c == 10 then rest else more

unfoldable pub join_values : Bytes → Option Bytes
join_values [] = some []
join_values (a ∷ []) = none
join_values (a ∷ b ∷ []) = some ((a * 4 + b / 16) ∷ [])
join_values (a ∷ b ∷ c ∷ []) = some ((a * 4 + b / 16) ∷ (b % 16 * 16 + c / 4) ∷ [])
join_values (a ∷ b ∷ c ∷ d ∷ r) = elim (join_values r) [
  | none ↦ none
  | some bs ↦ some ((a * 4 + b / 16) ∷ (b % 16 * 16 + c / 4) ∷ (c % 4 * 64 + d) ∷ bs)
]

unfoldable pub decode_raw_url : Bytes → Option Bytes
unfolding url_values join_values
decode_raw_url s = elim (url_values s) [ none ↦ none | some vs ↦ join_values vs ]

raw_url_back : decode_raw_url (codes "__4") ≡ some (0xff ∷ 0xfe ∷ [])
unfolding decode_raw_url
raw_url_back = refl

std_padded : base64_std (codes "light w") ≡ codes "bGlnaHQgdw=="
unfolding base64_std
std_padded = refl

raw_url_bare : base64_raw_url (0xff ∷ 0xfe ∷ []) ≡ codes "__4"
unfolding base64_raw_url
raw_url_bare = refl

hex_lower : hex (0x0f ∷ 0xa0 ∷ []) ≡ codes "0fa0"
unfolding hex
hex_lower = refl
