-- ===== src/Auth/Token.antt =====
-- APIKeyHash, verifyJWT and audienceMatches of internal/auth/auth.go.
use httpkvdb.Base.{
  Bool, true, false, not, ◌&&◌, ◌||◌, Option, none, some, List, [], ◌∷◌, ◌++◌, if◌then◌else◌,
}
use httpkvdb.Base.Int.{ℤ, pos, leb_ℤ, ltb_ℤ, eq_ℤ}
use httpkvdb.Base.Bytes.{Bytes, codes, bytes_eq, is_empty}
use httpkvdb.Golang.Encoding.{hex, decode_raw_url}
use httpkvdb.Golang.Text.{split}
use httpkvdb.Model.{Time, unix_seconds, Result, ok, err, ◌>>=◌, unauthorized}

-- The value of `aud`: a string, a list whose items may be strings, or anything else.
pub data Audience : Type 0 where
  text : Bytes → Audience
  items : List (Option Bytes) → Audience
  no_text : Audience

pub record JwtClaims : Type 0 where
  pub subject : Bytes
  pub expires_at : ℤ
  pub not_before : ℤ
  pub issuer : Bytes
  pub audience : Audience

-- HMAC-SHA256 of a message under a key, and json.Unmarshal into the claims.
pub record TokenLib : Type 0 where
  pub hmac : Bytes → Bytes → Bytes
  pub claims : Bytes → Option JwtClaims

unfoldable pub api_key_hash : TokenLib → Bytes → Bytes → Bytes
api_key_hash lib key pepper = codes "hmac-sha256:" ++ hex (lib.hmac pepper key)

unfoldable pub contains_text : List (Option Bytes) → Bytes → Bool
contains_text [] want = false
contains_text (none ∷ rest) want = contains_text rest want
contains_text (some s ∷ rest) want = bytes_eq s want || contains_text rest want

unfoldable pub audience_matches : Audience → Bytes → Bool
unfolding contains_text
audience_matches (text aud) want = bytes_eq aud want
audience_matches (items aud) want = contains_text aud want
audience_matches no_text want = false

-- The tests that follow the decoding of the claims, in their order.
unfoldable pub check_claims : Bytes → Bytes → Time → JwtClaims → Result Bytes
check_claims issuer audience time c =
    let now = unix_seconds time in
    if is_empty c.subject
      || (not (eq_ℤ c.expires_at (pos 0)) && leb_ℤ c.expires_at now)
      || (not (eq_ℤ c.not_before (pos 0)) && ltb_ℤ now c.not_before)
    then err unauthorized
    else if not (is_empty issuer) && not (bytes_eq c.issuer issuer)
    then err unauthorized
    else if not (is_empty audience) && not (audience_matches c.audience audience)
    then err unauthorized
    else ok c.subject

abbrev pub or_unauthorized {ℓ} : {A : Type ℓ} → Option A → Result A
or_unauthorized none = err unauthorized
or_unauthorized (some a) = ok a

-- The three parts of a token that has as many.
abbrev pub three : List Bytes → Option (Bytes × Bytes × Bytes)
three (a ∷ b ∷ c ∷ []) = some (a, b, c)
three _ = none

-- The signature is compared before the claims are read.
abbrev pub checked_signature : Bool → Option Bytes → Result Bytes
checked_signature true payload = or_unauthorized payload
checked_signature false payload = err unauthorized

abbrev pub signed_by : TokenLib → Bytes → Bytes → Bytes → Option Bytes → Bool
signed_by lib secret header payload none = false
signed_by lib secret header payload (some got) =
    bytes_eq got (lib.hmac secret (header ++ b'.' ∷ payload))

unfoldable pub verify_jwt : TokenLib → Bytes → Bytes → Bytes → Time → Bytes → Result Bytes
verify_jwt lib secret issuer audience now token = if is_empty secret then err unauthorized else do
  (header, payload, signature) ← or_unauthorized (three (split b'.' token))
  let good = signed_by lib secret header payload (decode_raw_url signature)
  bytes ← checked_signature good (decode_raw_url payload)
  claims ← or_unauthorized (lib.claims bytes)
  check_claims issuer audience now claims
