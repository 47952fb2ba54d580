-- ===== src/Auth/Coherent.antt =====
-- The cache of the authenticator beside the store: an entry says what the store says.
use httpkvdb.Base.{
  some, [], ◌∷◌, ◌&&◌, length, ◌≡◌, ◌≢◌, ℕ, sym, ap, ◌∙◌, ◌⊎◌, inl, inr, if◌then◌else◌, arith,
}
use mathlib.Core.Path.{subst}
use httpkvdb.Base.Bytes.{Bytes, bytes_eq_iff, bytes_key}
use httpkvdb.Base.Dict.{lookup, delete, lookup-insert, lookup-delete}
use httpkvdb.Base.Int.{ℤ, pos, leb_ℤ, ltb_ℤ}
use httpkvdb.Model.{Time, Principal}
use httpkvdb.Storage.Store.{Store}
use httpkvdb.Storage.Accounts.{resolve_api_key_hash, resolve_jwt_subject}
use httpkvdb.Auth.Cache.{Cache, CacheEntry, get_cache, set_cache, evict_one}
use httpkvdb.Auth.Authenticator.{api_key_entry, jwt_entry}

-- `p` is what the store says of the name `k` of an entry.
abbrev pub Says : {Doc : Type 0} → Store Doc → Bytes → Principal → Type 0
Says s k p =
    ((hash : Bytes) × (k ≡ api_key_entry hash) × (resolve_api_key_hash s hash ≡ some p))
    ⊎ ((subject : Bytes) × (k ≡ jwt_entry subject) × (resolve_jwt_subject s subject ≡ some p))

abbrev pub IsCoherent : {Doc : Type 0} → Store Doc → Cache → Type 0
IsCoherent s cache =
    (k : Bytes) (ent : CacheEntry) → lookup cache k ≡ some ent → Says s k ent.principal

-- No entries, nothing wrong.
pub IsCoherent-empty : {Doc : Type 0} (s : Store Doc) → IsCoherent s []
unfolding lookup
IsCoherent-empty s k ent h = absurd (cc)

-- Every entry of `c'` is one of `c`.
abbrev pub IsPart : Cache → Cache → Type 0
IsPart c' c = (k : Bytes) (ent : CacheEntry) → lookup c' k ≡ some ent → lookup c k ≡ some ent

IsPart-delete : (c : Cache) (k : Bytes) → IsPart (delete c k) c
IsPart-delete c k j ent h = ground (arith, lookup-delete c k j)

IsPart-evict_one : (c : Cache) → IsPart (evict_one c) c
IsPart-evict_one [] j ent h = h
IsPart-evict_one ((k, e) ∷ c) j ent h = IsPart-delete ((k, e) ∷ c) k j ent h

pub IsPart-get_cache : (now : Time) (c : Cache) (k : Bytes) → IsPart (get_cache now c k).1 c
unfolding get_cache
IsPart-get_cache now c k j ent h = ground (arith, IsPart-delete c k j ent)

-- A hit is the principal of an entry.
pub get_cache-eq-some :
    (now : Time) (c : Cache) (k : Bytes) (p : Principal)
    → (get_cache now c k).0 ≡ some p
    → (ent : CacheEntry) × (lookup c k ≡ some ent) × (ent.principal ≡ p)
unfolding get_cache
get_cache-eq-some now c k p h = ground arith

pub lookup-set_cache :
    (max : ℤ) (expires : Time) (c : Cache) (k : Bytes) (p : Principal) (j : Bytes)
    (ent : CacheEntry)
    → lookup (set_cache max expires c k p) j ≡ some ent
    → ((k ≡ j) × (ent.principal ≡ p)) ⊎ (lookup c j ≡ some ent)
unfolding set_cache
lookup-set_cache max expires c k p j ent h =
    let full = ltb_ℤ (pos 0) max && leb_ℤ max (pos (length c)) in
    let kept = if full then evict_one c else c in
    let rec : CacheEntry = record { principal = p; expires = expires } in
    ground (arith, lookup-insert kept k rec j, bytes_eq_iff k j, IsPart-evict_one c j ent)

-- The entries of keys and of subjects have different names.
api_key_entry-inj : (h h' : Bytes) → api_key_entry h ≡ api_key_entry h' → h ≡ h'
api_key_entry-inj h h' p = cc

jwt_entry-inj : (h h' : Bytes) → jwt_entry h ≡ jwt_entry h' → h ≡ h'
jwt_entry-inj h h' p = cc

entries_differ : (h subject : Bytes) → api_key_entry h ≢ jwt_entry subject
entries_differ h subject p = omega (arith, ap first_byte p)
  where
    first_byte : Bytes → ℕ
    first_byte [] = 0
    first_byte (b ∷ bs) = b

module _ {Doc : Type 0} (s : Store Doc) where
  pub IsCoherent-IsPart : (c c' : Cache) → IsPart c' c → IsCoherent s c → IsCoherent s c'
  IsCoherent-IsPart c c' part coh k ent h = coh k ent (part k ent h)

  pub said_key :
      (hash : Bytes) (p : Principal)
      → Says s (api_key_entry hash) p
      → resolve_api_key_hash s hash ≡ some p
  said_key hash p (inl (h, same, r)) =
      ap (resolve_api_key_hash s) (api_key_entry-inj hash h same) ∙ r
  said_key hash p (inr (subject, same, r)) = absurd (entries_differ hash subject same)

  pub said_subject :
      (subject : Bytes) (p : Principal)
      → Says s (jwt_entry subject) p
      → resolve_jwt_subject s subject ≡ some p
  said_subject subject p (inl (h, same, r)) = absurd (entries_differ h subject (sym same))
  said_subject subject p (inr (j, same, r)) =
      ap (resolve_jwt_subject s) (jwt_entry-inj subject j same) ∙ r

  pub IsCoherent-set_cache :
      (max : ℤ) (expires : Time) (c : Cache) (k : Bytes) (p : Principal)
      → IsCoherent s c
      → Says s k p
      → IsCoherent s (set_cache max expires c k p)
  IsCoherent-set_cache max expires c k p coh says j ent h =
      elim (lookup-set_cache max expires c k p j ent h) [
        | inl (same, is) ↦ subst (λ x. Says s j x) (sym is) (subst (λ x. Says s x p) same says)
        | inr old ↦ coh j ent old
      ]
