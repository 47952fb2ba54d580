-- ===== src/Auth/Refines.antt =====
-- The authenticator without its cache, and the authenticator as it is beside that.
use httpkvdb.Base.{
  not, Option, none, some, [], ◌∷◌, ◌≡◌, refl, sym, Bool-cases, if◌then◌else◌, arith, inl, inr,
}
use mathlib.Core.Path.{subst}
use httpkvdb.Base.Bytes.{Bytes, codes, is_empty}
use httpkvdb.Golang.Text.{trim_space, has_prefix, trim_prefix}
use httpkvdb.Model.{Time, Principal, Result, Result-cases, ok, err, unauthorized}
use httpkvdb.Storage.Store.{Store}
use httpkvdb.Storage.Accounts.{resolve_api_key_hash, resolve_jwt_subject}
use httpkvdb.Auth.Token.{TokenLib, api_key_hash, verify_jwt, or_unauthorized}
use httpkvdb.Auth.Cache.{get_cache}
use httpkvdb.Auth.Authenticator.{
  Authenticator, remember, cached, authenticate_api_key, as_jwt, authenticate_token, authenticate,
  authenticate_request,
}
use httpkvdb.Auth.Coherent.{
  Says, IsCoherent, IsCoherent-IsPart, IsCoherent-set_cache, IsPart-get_cache, get_cache-eq-some,
  said_key, said_subject,
}

-- What a request shows: the first header that is there decides.
pub data Credential : Type 0 where
  api_key : Bytes → Credential
  token : Bytes → Credential
  nothing : Credential

abbrev credential_in : Bytes → Credential
credential_in text =
    if has_prefix text (codes "ApiKey ")
    then api_key (trim_space (trim_prefix text (codes "ApiKey ")))
    else if has_prefix text (codes "Bearer ")
    then token (trim_space (trim_prefix text (codes "Bearer ")))
    else nothing

unfoldable pub credential_of : (Bytes → Bytes) → Credential
credential_of header =
    let first = trim_space (header (codes "APIKey")) in
    let second = trim_space (header (codes "X-API-Key")) in
    if not (is_empty first)
    then api_key first
    else if not (is_empty second)
    then api_key second
    else credential_in (header (codes "Authorization"))

module _ {Doc : Type 0} (lib : TokenLib) (now : Time) (s : Store Doc) where
  -- Who shows a credential, from the store alone.
  unfoldable pub bearer : Authenticator → Credential → Result Principal
  bearer a (api_key key) =
      if is_empty key
      then err unauthorized
      else or_unauthorized (resolve_api_key_hash s (api_key_hash lib key a.api_key_pepper))
  bearer a (token t) = elim (verify_jwt lib a.jwt_secret a.issuer a.audience now t) [
    | err e ↦ err unauthorized
    | ok subject ↦ or_unauthorized (resolve_jwt_subject s subject)
  ]
  bearer a nothing = err unauthorized

  -- The answer `r`, and a cache that still says what the store says.
  abbrev pub IsAnswer : Result Principal → Result Principal × Authenticator → Type 0
  IsAnswer r x = (x.0 ≡ r) × IsCoherent s x.1.cache

  IsAnswer-remember :
      (a : Authenticator) (k : Bytes) (found : Option Principal)
      → ((p : Principal) → found ≡ some p → Says s k p)
      → IsCoherent s a.cache
      → IsAnswer (or_unauthorized found) (remember lib now s a k found)
  unfolding remember
  IsAnswer-remember a k none to coh = (refl, coh)
  IsAnswer-remember a k (some p) to coh =
      (refl, IsCoherent-set_cache s a.max _ a.cache k p coh (to p refl))

  -- After the cache has given `hit`.
  abbrev after_hit :
      Authenticator → Bytes → Option Principal → Option Principal → Result Principal × Authenticator
  after_hit a k found none = remember lib now s a k found
  after_hit a k found (some p) = (ok p, a)

  cached_after :
      (a : Authenticator) (k : Bytes) (found : Option Principal)
      → cached lib now s a k found
        ≡ after_hit
            (record a { cache = (get_cache now a.cache k).1 })
            k
            found
            (get_cache now a.cache k).0
  unfolding cached
  cached_after a k found = refl

  IsAnswer-after_hit :
      (a : Authenticator) (k : Bytes) (found hit : Option Principal)
      → ((p : Principal) → found ≡ some p → Says s k p)
      → ((p : Principal) → hit ≡ some p → found ≡ some p)
      → IsCoherent s a.cache
      → IsAnswer (or_unauthorized found) (after_hit a k found hit)
  IsAnswer-after_hit a k found none to from coh = IsAnswer-remember a k found to coh
  IsAnswer-after_hit a k found (some p) to from coh = (sym (rw (from p refl) refl), coh)

  IsAnswer-cached :
      (a : Authenticator) (k : Bytes) (found : Option Principal)
      → ((p : Principal) → Says s k p → found ≡ some p)
      → ((p : Principal) → found ≡ some p → Says s k p)
      → IsCoherent s a.cache
      → IsAnswer (or_unauthorized found) (cached lib now s a k found)
  IsAnswer-cached a k found from to coh = rw (cached_after a k found) (
      IsAnswer-after_hit _ k found _ to
        (λ p h.
          let (ent, there, is) = get_cache-eq-some now a.cache k p h in
          from p (subst (λ x. Says s k x) is (coh k ent there)))
        (IsCoherent-IsPart s a.cache _ (IsPart-get_cache now a.cache k) coh))

  with_jwt_method :
      (subject : Bytes) → as_jwt (resolve_jwt_subject s subject) ≡ resolve_jwt_subject s subject
  unfolding resolve_jwt_subject
  with_jwt_method subject = ground arith

  key-IsAnswer :
      (a : Authenticator) (key : Bytes)
      → IsCoherent s a.cache
      → IsAnswer (bearer a (api_key key)) (authenticate_api_key lib now s a key)
  unfolding authenticate_api_key bearer
  key-IsAnswer a key coh = elim (Bool-cases (is_empty key)) [
    | inl h ↦ rw h (refl, coh)
    | inr h ↦ rw h (
        IsAnswer-cached a _ _ (said_key s _)
          (λ p r. inl (api_key_hash lib key a.api_key_pepper, refl, r)) coh)
  ]

  token-IsAnswer :
      (a : Authenticator) (t : Bytes)
      → IsCoherent s a.cache
      → IsAnswer (bearer a (token t)) (authenticate_token lib now s a t)
  unfolding authenticate_token bearer
  token-IsAnswer a t coh =
      elim (Result-cases (verify_jwt lib a.jwt_secret a.issuer a.audience now t)) [
        | inr (e, h) ↦ rw (h, authenticate_token, bearer) (refl, coh)
        | inl (subject, h) ↦
            rw (h, authenticate_token, bearer)
              (rw with_jwt_method
                (IsAnswer-cached a _ _ (said_subject s _) (λ p r. inr (subject, refl, r)) coh))
      ]

  authorization-IsAnswer :
      (a : Authenticator) (text : Bytes)
      → IsCoherent s a.cache
      → IsAnswer (bearer a (credential_in text)) (authenticate lib now s a text)
  unfolding authenticate bearer has_prefix
  authorization-IsAnswer a [] coh = (refl, coh)
  authorization-IsAnswer a (b ∷ bs) coh =
      elim (Bool-cases (has_prefix (b ∷ bs) (codes "ApiKey "))) [
        | inl h ↦ rw h (key-IsAnswer a _ coh)
        | inr h ↦ rw h (elim (Bool-cases (has_prefix (b ∷ bs) (codes "Bearer "))) [
          | inl t ↦ rw t (token-IsAnswer a _ coh)
          | inr t ↦ rw t (refl, coh)
        ])
      ]

  -- While every entry of the cache says what the store says, a request is answered as without a
  -- cache: the first of the three headers that is there decides, a key is looked up by its hash
  -- and a token by its subject. The entries still say what the store says afterwards.
  pub authenticate_request_refines :
      (a : Authenticator) (header : Bytes → Bytes)
      → IsCoherent s a.cache
      → ((authenticate_request lib now s a header).0 ≡ bearer a (credential_of header))
        × IsCoherent s (authenticate_request lib now s a header).1.cache
  unfolding authenticate_request credential_of
  authenticate_request_refines a header coh =
      elim (Bool-cases (is_empty (trim_space (header (codes "APIKey"))))) [
        | inr h ↦ rw h (key-IsAnswer a _ coh)
        | inl h ↦ rw h (elim (Bool-cases (is_empty (trim_space (header (codes "X-API-Key"))))) [
          | inr t ↦ rw t (key-IsAnswer a _ coh)
          | inl t ↦ rw t (authorization-IsAnswer a _ coh)
        ])
      ]
