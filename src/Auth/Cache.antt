-- ===== src/Auth/Cache.antt =====
-- The cache of internal/auth/auth.go, a map with expiry times and a bound.
use httpkvdb.Base.{◌&&◌, Option, none, some, [], ◌∷◌, length, ltb, if◌then◌else◌}
use httpkvdb.Base.Int.{ℤ, pos, leb_ℤ, ltb_ℤ}
use httpkvdb.Base.Bytes.{Bytes, bytes_key}
use httpkvdb.Base.Dict.{Dict, lookup, insert, delete}
use httpkvdb.Model.{Time, Principal}

pub record CacheEntry : Type 0 where
  pub principal : Principal
  pub expires : Time

abbrev pub Cache : Type 0
Cache = Dict Bytes CacheEntry

abbrev pub fresh_principal : Time → Option CacheEntry → Option Principal
fresh_principal now none = none
fresh_principal now (some ent) = if ltb ent.expires now then none else some ent.principal

-- getCache: a missing or expired entry is deleted.
unfoldable pub get_cache : Time → Cache → Bytes → Option Principal × Cache
get_cache now cache k = elim (fresh_principal now (lookup cache k)) [
  | none ↦ (none, delete cache k)
  | some p ↦ (some p, cache)
]

-- delete(a.cache, old) for the key that the range loop gives first
abbrev pub evict_one : Cache → Cache
evict_one [] = []
evict_one ((k, ent) ∷ cache) = delete ((k, ent) ∷ cache) k

-- setCache
unfoldable pub set_cache : ℤ → Time → Cache → Bytes → Principal → Cache
set_cache max expires cache k p =
    let full = ltb_ℤ (pos 0) max && leb_ℤ max (pos (length cache)) in
    insert (if full then evict_one cache else cache) k (record { principal = p; expires = expires })
