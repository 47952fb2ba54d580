-- ===== src/Golang/Strconv.antt =====
-- strconv.Atoi, Itoa and FormatUint on a 64-bit machine.
use httpkvdb.Base.{
  ℕ, zero, suc, ◌+◌, ◌-◌, ◌*◌, ◌/◌, ◌%◌, ◌^◌, ◌≡◌, refl, ◌&&◌, Option, none, some, [], ◌∷◌, leb,
  ltb, ◌==◌, if◌then◌else◌,
}
use httpkvdb.Base.Int.{ℤ, pos, negsuc}
use httpkvdb.Base.Bytes.{Bytes, codes}

-- The decimal digits of a number below 10 ^ fuel.
unfoldable pub decimal_digits : ℕ → ℕ → Bytes → Bytes
decimal_digits zero n tail = tail
decimal_digits (suc fuel) n tail =
    let digit = b'0' + n % 10 in
    let rest = decimal_digits fuel (n / 10) (digit ∷ tail) in
    if ltb n 10 then digit ∷ tail else rest

-- %d of an int, which has at most 19 digits
unfoldable pub decimal : ℤ → Bytes
unfolding decimal_digits
decimal (pos n) = decimal_digits 19 n []
decimal (negsuc n) = b'-' ∷ decimal_digits 19 (n + 1) []

-- strconv.FormatUint(n, 10) of a uint64, which has at most 20 digits
unfoldable pub format_uint : ℕ → Bytes
unfolding decimal_digits
format_uint n = decimal_digits 20 n []

-- The value of a text of digits, behind those read before.
unfoldable pub digits_value : ℕ → Bytes → Option ℕ
digits_value acc [] = some acc
digits_value acc (c ∷ cs) =
    let rest = digits_value (acc * 10 + (c - b'0')) cs in
    if leb b'0' c && leb c b'9' then rest else none

unfoldable pub magnitude : Bytes → Option ℕ
unfolding digits_value
magnitude [] = none
magnitude (c ∷ cs) = digits_value 0 (c ∷ cs)

abbrev negated : ℕ → ℤ
negated zero = pos 0
negated (suc n) = negsuc n

abbrev at_most : ℕ → (ℕ → ℤ) → Option ℕ → Option ℤ
at_most max sign none = none
at_most max sign (some n) = if leb n max then some (sign n) else none

-- `none` is an error, of syntax or of range.
unfoldable pub atoi : Bytes → Option ℤ
unfolding magnitude
atoi [] = none
atoi (c ∷ cs) =
    if c == b'-'
    then at_most (2 ^ 63) negated (magnitude cs)
    else if c == b'+'
    then at_most (2 ^ 63 - 1) pos (magnitude cs)
    else at_most (2 ^ 63 - 1) pos (magnitude (c ∷ cs))

reads : atoi (codes "-42") ≡ some (negsuc 41)
unfolding atoi
reads = refl
