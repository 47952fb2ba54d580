-- ===== src/Golang/Utf8.antt =====
-- unicode/utf8.ValidString
use httpkvdb.Base.{
  ℕ, ◌≡◌, refl, Bool, true, false, ◌&&◌, ◌||◌, [], ◌∷◌, ltb, leb, ◌==◌, if◌then◌else◌,
}
use httpkvdb.Base.Bytes.{Bytes, codes}

abbrev between : ℕ → ℕ → ℕ → Bool
between lo hi b = leb lo b && leb b hi

abbrev continuation : ℕ → Bool
continuation = between 0x80 0xbf

abbrev pair_ok : ℕ → ℕ → Bool
pair_ok a b = between 0xc2 0xdf a && continuation b

abbrev triple_ok : ℕ → ℕ → ℕ → Bool
triple_ok a b c =
    ((a == 0xe0 && between 0xa0 0xbf b)
      || ((between 0xe1 0xec a || between 0xee 0xef a) && continuation b)
      || (a == 0xed && between 0x80 0x9f b))
    && continuation c

abbrev quad_ok : ℕ → ℕ → ℕ → ℕ → Bool
quad_ok a b c d =
    ((a == 0xf0 && between 0x90 0xbf b)
      || (between 0xf1 0xf3 a && continuation b)
      || (a == 0xf4 && between 0x80 0x8f b))
    && continuation c
    && continuation d

unfoldable pub valid_string : Bytes → Bool
valid_string [] = true
valid_string (a ∷ []) = ltb a 0x80
valid_string (a ∷ b ∷ []) =
    let one = valid_string (b ∷ []) in if ltb a 0x80 then one else pair_ok a b
valid_string (a ∷ b ∷ c ∷ []) =
    let one = valid_string (b ∷ c ∷ []) in
    let two = valid_string (c ∷ []) in
    if ltb a 0x80 then one else if pair_ok a b then two else triple_ok a b c
valid_string (a ∷ b ∷ c ∷ d ∷ r) =
    let one = valid_string (b ∷ c ∷ d ∷ r) in
    let two = valid_string (c ∷ d ∷ r) in
    let three = valid_string (d ∷ r) in
    let four = valid_string r in
    if ltb a 0x80
    then one
    else if pair_ok a b
    then two
    else if triple_ok a b c
    then three
    else if quad_ok a b c d
    then four
    else false

snowman : valid_string (0xe2 ∷ 0x98 ∷ 0x83 ∷ codes "!") ≡ true
unfolding valid_string
snowman = refl

surrogate : valid_string (0xed ∷ 0xa0 ∷ 0x80 ∷ []) ≡ false
unfolding valid_string
surrogate = refl
