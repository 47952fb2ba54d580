-- ===== src/Golang/Text.antt =====
-- Package strings on byte lists: Split, Cut, TrimSpace, ToLower, ToUpper, HasPrefix,
-- TrimPrefix.
use httpkvdb.Base.{
  ℕ, ◌+◌, ◌-◌, ◌≡◌, refl, Option, none, some, List, Bool, true, false, ◌&&◌, ◌||◌, [], ◌∷◌, length,
  drop, leb, ◌==◌, if◌then◌else◌,
}
use httpkvdb.Base.Bytes.{Bytes, codes}
use mathlib.Core.List.{reverse}

-- strings.Split(s, sep)[0], for a separator of one byte
unfoldable pub before : ℕ → Bytes → Bytes
before sep [] = []
before sep (b ∷ bs) = let rest = before sep bs in if b == sep then [] else b ∷ rest

abbrev lower_byte : ℕ → ℕ
lower_byte c = if leb b'A' c && leb c b'Z' then c + 32 else c

-- strings.ToLower. Two letters beyond ASCII become ASCII, U+0130 (an i) and U+212A (a k). Any
-- other becomes no ASCII letter and stays as it is here: results are compared with ASCII texts.
unfoldable pub to_lower : Bytes → Bytes
to_lower [] = []
to_lower (a ∷ []) = lower_byte a ∷ []
to_lower (a ∷ b ∷ []) =
    if a == 0xc4 && b == 0xb0 then b'i' ∷ [] else lower_byte a ∷ lower_byte b ∷ []
to_lower (a ∷ b ∷ c ∷ r) =
    let two = b'i' ∷ to_lower (c ∷ r) in
    let three = b'k' ∷ to_lower r in
    let one = lower_byte a ∷ to_lower (b ∷ c ∷ r) in
    if a == 0xc4 && b == 0xb0
    then two
    else if a == 0xe2 && b == 0x84 && c == 0xaa
    then three
    else one

-- The white space of unicode.IsSpace, in UTF-8.
abbrev space_1 : ℕ → Bool
space_1 a = (leb 9 a && leb a 13) || a == 32

abbrev space_2 : ℕ → ℕ → Bool
space_2 a b = a == 0xc2 && (b == 0x85 || b == 0xa0)

abbrev space_3 : ℕ → ℕ → ℕ → Bool
space_3 a b c =
    (a == 0xe1 && b == 0x9a && c == 0x80)
    || (a == 0xe2 && b == 0x80 && (leb 0x80 c && leb c 0x8a || c == 0xa8 || c == 0xa9 || c == 0xaf))
    || (a == 0xe2 && b == 0x81 && c == 0x9f)
    || (a == 0xe3 && b == 0x80 && c == 0x80)

unfoldable pub trim_left : Bytes → Bytes
trim_left [] = []
trim_left (a ∷ []) = if space_1 a then [] else a ∷ []
trim_left (a ∷ b ∷ []) =
    let rest = trim_left (b ∷ []) in
    if space_1 a then rest else if space_2 a b then [] else a ∷ b ∷ []
trim_left (a ∷ b ∷ c ∷ r) =
    let one = trim_left (b ∷ c ∷ r) in
    let two = trim_left (c ∷ r) in
    let three = trim_left r in
    if space_1 a
    then one
    else if space_2 a b
    then two
    else if space_3 a b c
    then three
    else a ∷ b ∷ c ∷ r

-- The same on the reversed text.
unfoldable pub trim_left_reversed : Bytes → Bytes
trim_left_reversed [] = []
trim_left_reversed (a ∷ []) = if space_1 a then [] else a ∷ []
trim_left_reversed (b ∷ a ∷ []) =
    let rest = trim_left_reversed (a ∷ []) in
    if space_1 b then rest else if space_2 a b then [] else b ∷ a ∷ []
trim_left_reversed (c ∷ b ∷ a ∷ r) =
    let one = trim_left_reversed (b ∷ a ∷ r) in
    let two = trim_left_reversed (a ∷ r) in
    let three = trim_left_reversed r in
    if space_1 c
    then one
    else if space_2 b c
    then two
    else if space_3 a b c
    then three
    else c ∷ b ∷ a ∷ r

-- strings.TrimSpace
unfoldable pub trim_space : Bytes → Bytes
unfolding trim_left trim_left_reversed
trim_space s = reverse (trim_left_reversed (reverse (trim_left s)))

-- strings.HasPrefix, strings.TrimPrefix
unfoldable pub has_prefix : Bytes → Bytes → Bool
has_prefix s [] = true
has_prefix [] (p ∷ ps) = false
has_prefix (b ∷ bs) (p ∷ ps) = b == p && has_prefix bs ps

unfoldable pub trim_prefix : Bytes → Bytes → Bytes
unfolding has_prefix
trim_prefix s p = if has_prefix s p then drop (length p) s else s

abbrev push_front : ℕ → List Bytes → List Bytes
push_front b [] = (b ∷ []) ∷ []
push_front b (part ∷ parts) = (b ∷ part) ∷ parts

-- strings.Cut, for a separator of one byte: what stands before it and behind it.
unfoldable pub cut : ℕ → Bytes → Option (Bytes × Bytes)
cut sep [] = none
cut sep (b ∷ bs) =
    let rest = cut sep bs in
    if b == sep then some ([], bs) else elim rest [ none ↦ none | some (x, y) ↦ some (b ∷ x, y) ]

-- strings.Split, for a separator of one byte
unfoldable pub split : ℕ → Bytes → List Bytes
split sep [] = [] ∷ []
split sep (b ∷ bs) = let rest = split sep bs in if b == sep then [] ∷ rest else push_front b rest

abbrev upper_byte : ℕ → ℕ
upper_byte c = if leb b'a' c && leb c b'z' then c - 32 else c

-- strings.ToUpper. Two letters beyond ASCII become ASCII, U+0131 (an I) and U+017F (an S). Any
-- other becomes no ASCII letter and stays as it is here: results are compared with ASCII texts.
unfoldable pub to_upper : Bytes → Bytes
to_upper [] = []
to_upper (a ∷ []) = upper_byte a ∷ []
to_upper (a ∷ b ∷ r) =
    let two = to_upper r in
    let one = upper_byte a ∷ to_upper (b ∷ r) in
    if a == 0xc4 && b == 0xb1
    then b'I' ∷ two
    else if a == 0xc5 && b == 0xbf
    then b'S' ∷ two
    else one

trims : trim_space (codes " Text/Plain ") ≡ codes "Text/Plain"
unfolding trim_space
trims = refl

lowers : to_lower (before b';' (codes "Text/Plain; charset=utf-8")) ≡ codes "text/plain"
unfolding to_lower before
lowers = refl
