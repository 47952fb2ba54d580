-- ===== src/Golang/Crypto.antt =====
-- crypto/sha256 and encoding/json.Valid, as parameters: what the program relies on is named.
use httpkvdb.Base.{◌≡◌, Bool, true, length, ◌<◌, replicate, length-replicate}
use httpkvdb.Base.Bytes.{Bytes}

abbrev pub IsByte : Prim.Native.Nat.ℕ → Type 0
IsByte b = b < 256

-- `sha256` gives 32 bytes. `json_valid` is json.Valid.
pub record Std : Type 0 where
  pub sha256 : Bytes → Bytes
  pub sha256_length : (b : Bytes) → length (sha256 b) ≡ 32
  pub json_valid : Bytes → Bool

-- A stand-in for tests.
abbrev pub toy_std : Std
toy_std = record {
  sha256 = λ b. replicate 32 (length b);
  sha256_length = λ b. length-replicate 32 (length b);
  json_valid = λ b. true;
}
