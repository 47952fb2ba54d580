-- ===== src/Codec/Words.antt =====
-- encoding/binary: fixed-width integers, big-endian; and the wrap-around of a conversion.
use httpkvdb.Base.{
  ℕ, zero, suc, ◌+◌, ◌-◌, ◌*◌, ◌/◌, ◌%◌, ◌^◌, ◌<◌, ◌≡◌, refl, ap, ◌∙◌, Option, none, some, [], ◌∷◌,
  ◌++◌, length, arith,
}
use httpkvdb.Base.Int.{ℤ, pos, negsuc}
use httpkvdb.Base.Bytes.{Bytes}
use native.Mathlib.Nat.{pow-suc, div-add-mod, mod-lt, mod-eq_of_lt, mul-add-mod_self_right}

-- uint32(x), uint64(x)
abbrev pub wrap : ℕ → ℤ → ℕ
wrap w (pos n) = n % 2 ^ w
wrap w (negsuc n) = 2 ^ w - 1 - n % 2 ^ w

-- The last `n` bytes of `v`, the highest first.
unfoldable pub big_endian : ℕ → ℕ → Bytes
big_endian zero v = []
big_endian (suc n) v = (v / 256 ^ n % 256) ∷ big_endian n v

unfoldable pub read_big_endian : ℕ → ℕ → Bytes → Option (ℕ × Bytes)
read_big_endian zero acc s = some (acc, s)
read_big_endian (suc n) acc [] = none
read_big_endian (suc n) acc (b ∷ s) = read_big_endian n (acc * 256 + b) s

pub length-big_endian : (n v : ℕ) → length (big_endian n v) ≡ n
unfolding big_endian
length-big_endian zero v = refl
length-big_endian (suc n) v = ap suc (length-big_endian n v)

pow_pos : (n : ℕ) → 0 < 256 ^ n
pow_pos zero = omega arith
pow_pos (suc n) = rw pow-suc (omega (arith, pow_pos n))

split_word : (v p : ℕ) → v ≡ v / p / 256 * (p * 256) + (v / p % 256 * p + v % p)
split_word v p = omega (arith, div-add-mod v p, ap (λ (t : ℕ). p * t) (div-add-mod (v / p) 256))

digit_fits : (d r p : ℕ) → d < 256 → r < p → d * p + r < p * 256
digit_fits d r p hd hr = grind arith

mod_split : (v p : ℕ) → 0 < p → v % (p * 256) ≡ v / p % 256 * p + v % p
mod_split v p h =
    ap (λ (t : ℕ). t % (p * 256)) (split_word v p)
    ∙ mul-add-mod_self_right (v / p / 256) (p * 256) _
    ∙ mod-eq_of_lt (digit_fits (v / p % 256) (v % p) p (omega arith) (mod-lt v h))

join_word : (acc d r p : ℕ) → (acc * 256 + d) * p + r ≡ acc * (p * 256) + (d * p + r)
join_word acc d r p = omega arith

-- What is read behind `acc` is the last `n` bytes of `v`.
pub read-big_endian :
    (n acc v : ℕ) (rest : Bytes)
    → read_big_endian n acc (big_endian n v ++ rest) ≡ some (acc * 256 ^ n + v % 256 ^ n, rest)
unfolding big_endian read_big_endian
read-big_endian zero acc v rest = ground arith
read-big_endian (suc n) acc v rest =
    read-big_endian n (acc * 256 + v / 256 ^ n % 256) v rest
    ∙ ap (λ (t : ℕ). some (t, rest))
        (join_word acc (v / 256 ^ n % 256) (v % 256 ^ n) (256 ^ n)
          ∙ rw (pow-suc 256 n, mod_split v (256 ^ n) (pow_pos n)) refl)
