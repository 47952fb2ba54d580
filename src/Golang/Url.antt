-- ===== src/Golang/Url.antt =====
-- url.PathUnescape, and PathEscape of a client.
use httpkvdb.Base.{
  ℕ, ◌+◌, ◌-◌, ◌*◌, ◌≡◌, refl, ◌&&◌, Option, none, some, [], ◌∷◌, leb, ◌==◌, if◌then◌else◌,
}
use httpkvdb.Base.Bytes.{Bytes, codes}

abbrev pub unhex : ℕ → Option ℕ
unhex c =
    if leb b'0' c && leb c b'9'
    then some (c - b'0')
    else if leb b'a' c && leb c b'f'
    then some (c - b'a' + 10)
    else if leb b'A' c && leb c b'F'
    then some (c - b'A' + 10)
    else none

abbrev escaped_byte : Option ℕ → Option ℕ → Option Bytes → Option Bytes
escaped_byte (some h) (some l) (some rest) = some ((h * 16 + l) ∷ rest)
escaped_byte _ _ _ = none

abbrev plain_byte : ℕ → Option Bytes → Option Bytes
plain_byte b (some rest) = some (b ∷ rest)
plain_byte b none = none

-- `none` is an EscapeError.
unfoldable pub path_unescape : Bytes → Option Bytes
path_unescape [] = some []
path_unescape (a ∷ []) = if a == b'%' then none else some (a ∷ [])
path_unescape (a ∷ b ∷ []) =
    let rest = plain_byte a (path_unescape (b ∷ [])) in if a == b'%' then none else rest
path_unescape (a ∷ b ∷ c ∷ r) =
    let escaped = escaped_byte (unhex b) (unhex c) (path_unescape r) in
    let rest = plain_byte a (path_unescape (b ∷ c ∷ r)) in if a == b'%' then escaped else rest

unescapes : path_unescape (codes "a%2Fb") ≡ some (codes "a/b")
unfolding path_unescape
unescapes = refl

refuses : path_unescape (codes "100%") ≡ none
unfolding path_unescape
refuses = refl
