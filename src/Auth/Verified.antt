-- ===== src/Auth/Verified.antt =====
-- What an accepted JSON Web Token is.
use httpkvdb.Base.{
  ◌≡◌, refl, ap, Bool, true, false, ◌⊎◌, inl, inr, Option, none, some, List, [], ◌∷◌, ◌++◌,
  Bool-cases, arith,
}
use httpkvdb.Base.Int.{pos, leb_ℤ, ltb_ℤ, eq_ℤ}
use httpkvdb.Base.Bytes.{Bytes, bytes_eq, bytes_eq_iff, is_empty}
use httpkvdb.Golang.Encoding.{decode_raw_url}
use httpkvdb.Golang.Text.{split}
use httpkvdb.Model.{Time, unix_seconds, ok, err, unauthorized, >>=-eq-ok}
use httpkvdb.Auth.Token.{
  TokenLib, JwtClaims, audience_matches, check_claims, or_unauthorized, three, checked_signature,
  signed_by, verify_jwt,
}

-- Claims that name the subject, in their time, for this service.
pub record IsValidAt (issuer audience : Bytes) (now : Time) (c : JwtClaims) : Type 0 where
  pub named : is_empty c.subject ≡ false
  pub not_over : (eq_ℤ c.expires_at (pos 0) ≡ true) ⊎ (ltb_ℤ (unix_seconds now) c.expires_at ≡ true)
  pub begun : (eq_ℤ c.not_before (pos 0) ≡ true) ⊎ (leb_ℤ c.not_before (unix_seconds now) ≡ true)
  pub issued : (is_empty issuer ≡ true) ⊎ (bytes_eq c.issuer issuer ≡ true)
  pub meant : (is_empty audience ≡ true) ⊎ (audience_matches c.audience audience ≡ true)

-- A token in three parts, of which the third is the HMAC of the others under the secret.
pub record IsSigned (lib : TokenLib) (secret issuer audience : Bytes) (now : Time)
    (token subject : Bytes) : Type 0 where
  pub header : Bytes
  pub payload : Bytes
  pub signature : Bytes
  pub bytes : Bytes
  pub claims : JwtClaims
  pub secret_set : is_empty secret ≡ false
  pub parts : split b'.' token ≡ header ∷ payload ∷ signature ∷ []
  pub signed : decode_raw_url signature ≡ some (lib.hmac secret (header ++ b'.' ∷ payload))
  pub decoded : decode_raw_url payload ≡ some bytes
  pub read : lib.claims bytes ≡ some claims
  pub valid : IsValidAt issuer audience now claims
  pub of_subject : claims.subject ≡ subject

check_claims-eq-ok :
    (issuer audience : Bytes) (now : Time) (c : JwtClaims) (subject : Bytes)
    → check_claims issuer audience now c ≡ ok subject
    → IsValidAt issuer audience now c × (c.subject ≡ subject)
unfolding check_claims
check_claims-eq-ok issuer audience now c subject h = (
  record {
    named = ground arith;
    not_over = ground arith;
    begun = ground arith;
    issued = ground arith;
    meant = ground arith;
  },
  ground arith,
)

or_unauthorized-eq-ok {ℓ} :
    {A : Type ℓ} (o : Option A) (a : A) → or_unauthorized o ≡ ok a → o ≡ some a
or_unauthorized-eq-ok none a h = cc
or_unauthorized-eq-ok (some b) a h = cc

three-eq-some : (l : List Bytes) (a b c : Bytes) → three l ≡ some (a, b, c) → l ≡ a ∷ b ∷ c ∷ []
three-eq-some [] a b c h = cc
three-eq-some (x ∷ []) a b c h = cc
three-eq-some (x ∷ y ∷ []) a b c h = cc
three-eq-some (x ∷ y ∷ z ∷ []) a b c h = cc
three-eq-some (x ∷ y ∷ z ∷ v ∷ l) a b c h = cc

checked_signature-eq-ok :
    (good : Bool) (payload : Option Bytes) (bytes : Bytes)
    → checked_signature good payload ≡ ok bytes
    → (good ≡ true) × (payload ≡ some bytes)
checked_signature-eq-ok true none bytes h = cc
checked_signature-eq-ok true (some b) bytes h = (refl, cc)
checked_signature-eq-ok false payload bytes h = cc

signed_by-eq-true :
    (lib : TokenLib) (secret header payload : Bytes) (got : Option Bytes)
    → signed_by lib secret header payload got ≡ true
    → got ≡ some (lib.hmac secret (header ++ b'.' ∷ payload))
signed_by-eq-true lib secret header payload none h = cc
signed_by-eq-true lib secret header payload (some g) h =
    ap some ((bytes_eq_iff g (lib.hmac secret (header ++ b'.' ∷ payload))).0 h)

-- An accepted token has three parts, of which the third decodes to the HMAC of the first two
-- under the secret, which is not empty, and the second to claims that name the subject, have not
-- expired, have begun, and are of the issuer and for the audience where these are set.
pub verify_jwt_sound :
    (lib : TokenLib) (secret issuer audience : Bytes) (now : Time) (token subject : Bytes)
    → verify_jwt lib secret issuer audience now token ≡ ok subject
    → IsSigned lib secret issuer audience now token subject
unfolding verify_jwt
verify_jwt_sound lib secret issuer audience now token subject h =
    elim (Bool-cases (is_empty secret)) [
      | inl e ↦ absurd (refused (rw (e, verify_jwt) at h))
      | inr e ↦
          let ((header, payload, signature), parts, h1) = >>=-eq-ok _ _ (rw (e, verify_jwt) at h) in
          let (bytes, good, h2) = >>=-eq-ok _ _ h1 in
          let (claims, read, h3) = >>=-eq-ok _ _ h2 in
          let (right, decoded) = checked_signature-eq-ok _ _ bytes good in
          let (valid, of_subject) = check_claims-eq-ok issuer audience now claims subject h3 in
          record {
            header = header;
            payload = payload;
            signature = signature;
            bytes = bytes;
            claims = claims;
            secret_set = e;
            parts = three-eq-some _ _ _ _ (or_unauthorized-eq-ok _ _ parts);
            signed = signed_by-eq-true lib secret header payload _ right;
            decoded = decoded;
            read = or_unauthorized-eq-ok _ _ read;
            valid = valid;
            of_subject = of_subject;
          }
    ]
  where
    refused : err unauthorized ≡ ok subject → ⊥
    refused p = cc
