-- ===== src/Golang/Stream.antt =====
-- io.ReadAll and http.MaxBytesReader on a request's body, or on a file.
use httpkvdb.Base.{Bool, true, Option, none, some, length, take, ltb, if◌then◌else◌}
use httpkvdb.Base.Int.{ℤ, pos_part}
use httpkvdb.Base.Bytes.{Bytes}

-- What a reader gives: some bytes, and whether an error follows them.
pub record Stream : Type 0 where
  pub bytes : Bytes
  pub fails : Bool

-- http.MaxBytesReader(w, body, max); a negative limit is 0.
unfoldable pub limited : ℤ → Stream → Stream
limited max s =
    if ltb (pos_part max) (length s.bytes)
    then record { bytes = take (pos_part max) s.bytes; fails = true }
    else s

unfoldable pub read_all : Stream → Option Bytes
read_all s = if s.fails then none else some s.bytes
