-- ===== src/Auth/Bounds.antt =====
-- The bound on the cache of the authenticator.
use httpkvdb.Base.{
  ℕ, ◌+◌, ◌≤◌, ◌<◌, Option, none, some, [], ◌∷◌, length, ◌≡◌, Bool-cases, Option-cases, arith, inl,
  inr,
}
use httpkvdb.Base.Bytes.{Bytes, bytes_key, codes, is_empty, bytes_eq_iff}
use httpkvdb.Base.Dict.{insert, delete}
use httpkvdb.Base.Int.{pos}
use httpkvdb.Golang.Text.{trim_space, trim_prefix}
use httpkvdb.Model.{Time, Principal, Result-cases}
use httpkvdb.Storage.Store.{Store}
use httpkvdb.Auth.Token.{TokenLib, verify_jwt}
use httpkvdb.Auth.Cache.{Cache, CacheEntry, get_cache, set_cache, evict_one}
use httpkvdb.Auth.Authenticator.{
  Authenticator, remember, cached, authenticate_api_key, authenticate_token, authenticate,
  authenticate_request,
}

length-delete : (c : Cache) (k : Bytes) → length (delete c k) ≤ length c
unfolding delete
length-delete [] k = omega arith
length-delete ((j, e) ∷ c) k = ground (arith, length-delete c k)

length-insert : (c : Cache) (k : Bytes) (e : CacheEntry) → length (insert c k e) ≤ length c + 1
unfolding insert
length-insert [] k e = omega arith
length-insert ((j, old) ∷ c) k e = ground (arith, length-insert c k e)

-- One entry less, if there is one.
length-evict_one : (c : Cache) → 0 < length c → length (evict_one c) + 1 ≤ length c
unfolding delete
length-evict_one [] h = omega arith
length-evict_one ((k, e) ∷ c) h = ground (arith, length-delete c k, bytes_eq_iff k k)

length-get_cache : (now : Time) (c : Cache) (k : Bytes) → length (get_cache now c k).1 ≤ length c
unfolding get_cache
length-get_cache now c k = ground (arith, length-delete c k)

module _ (max : ℕ) (positive : 0 < max) where
  length-set_cache :
      (expires : Time) (c : Cache) (k : Bytes) (p : Principal)
      → length c ≤ max
      → length (set_cache (pos max) expires c k p) ≤ max
  unfolding set_cache
  length-set_cache expires c k p h =
      let rec : CacheEntry = record { principal = p; expires = expires } in
      ground (arith, length-insert c k rec, length-insert (evict_one c) k rec, length-evict_one c)

module _ {Doc : Type 0} (lib : TokenLib) (now : Time) (s : Store Doc) (max : ℕ)
    (positive : 0 < max) where
  abbrev Fits : Authenticator → Type 0
  Fits a = (a.max ≡ pos max) × (length a.cache ≤ max)

  Fits-remember :
      (a : Authenticator) (k : Bytes) (found : Option Principal)
      → Fits a
      → Fits (remember lib now s a k found).1
  unfolding remember
  Fits-remember a k none h = h
  Fits-remember a k (some p) (m, h) = (m, rw m (length-set_cache max positive _ a.cache k p h))

  Fits-cached :
      (a : Authenticator) (k : Bytes) (found : Option Principal)
      → Fits a
      → Fits (cached lib now s a k found).1
  unfolding cached
  Fits-cached a k found (m, h) =
      let kept = record a { cache = (get_cache now a.cache k).1 } in
      let fits : Fits kept = (m, (let l = length-get_cache now a.cache k in omega arith)) in
      elim (Option-cases (get_cache now a.cache k).0) [
        | inl n ↦ rw (n, cached) (Fits-remember kept k found fits)
        | inr (p, n) ↦ rw (n, cached) fits
      ]

  Fits-key :
      (a : Authenticator) (key : Bytes) → Fits a → Fits (authenticate_api_key lib now s a key).1
  unfolding authenticate_api_key
  Fits-key a key h = elim (Bool-cases (is_empty key)) [
    | inl e ↦ rw e h
    | inr e ↦ rw e (Fits-cached a _ _ h)
  ]

  Fits-token : (a : Authenticator) (t : Bytes) → Fits a → Fits (authenticate_token lib now s a t).1
  unfolding authenticate_token
  Fits-token a t h = elim (Result-cases (verify_jwt lib a.jwt_secret a.issuer a.audience now t)) [
    | inr (e, r) ↦ rw (r, authenticate_token) h
    | inl (subject, r) ↦ rw (r, authenticate_token) (Fits-cached a _ _ h)
  ]

  Fits-authorization :
      (a : Authenticator) (text : Bytes) → Fits a → Fits (authenticate lib now s a text).1
  unfolding authenticate
  Fits-authorization a text h = ground (
    arith,
    Fits-key a (trim_space (trim_prefix text (codes "ApiKey "))) h,
    Fits-token a (trim_space (trim_prefix text (codes "Bearer "))) h,
  )

  -- With a positive bound on the entries of the cache, a request leaves no more of them than the
  -- bound, if there were no more before.
  pub cache_bounded :
      (a : Authenticator) (header : Bytes → Bytes)
      → a.max ≡ pos max
      → length a.cache ≤ max
      → length (authenticate_request lib now s a header).1.cache ≤ max
  unfolding authenticate_request
  cache_bounded a header m h = ground (
    arith,
    Fits-key a (trim_space (header (codes "APIKey"))) (m, h),
    Fits-key a (trim_space (header (codes "X-API-Key"))) (m, h),
    Fits-authorization a (header (codes "Authorization")) (m, h),
  )
