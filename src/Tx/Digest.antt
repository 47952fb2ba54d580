-- ===== src/Tx/Digest.antt =====
-- BodyHash, Digest, sameOp and the identifiers of coordinator.go.
use httpkvdb.Base.{
  ◌≡◌, refl, Bool, ◌&&◌, ◌||◌, Option, none, some, List, [], ◌∷◌, ◌++◌, length, map, leb, ◌==◌,
}
use httpkvdb.Base.Int.{ℤ, pos, ltb_ℤ, int_eq}
use httpkvdb.Base.Bytes.{Bytes, codes, bytes_eq}
use httpkvdb.Base.Dict.{Dict, lookup}
use httpkvdb.Golang.Crypto.{Std}
use httpkvdb.Golang.Strconv.{decimal}
use httpkvdb.Golang.Encoding.{hex}
use httpkvdb.Golang.Sort.{sort}
use httpkvdb.Model.{TxOperation, Transaction}
use httpkvdb.Validate.{is_segment_char, all_chars}

unfoldable pub body_hash : Std → Bytes → Bytes
body_hash std body = codes "sha256:" ++ hex (std.sha256 body)

abbrev nul : Bytes → Bytes
nul rest = 0 ∷ rest

-- The line that Digest hashes for one operation.
unfoldable pub digest_line : TxOperation → Bytes
digest_line op =
    decimal op.seq
    ++ nul (op.op_id ++ nul (op.op_type ++ nul (op.key ++ nul (op.body_hash ++ 10 ∷ []))))

abbrev line_at : Option TxOperation → Bytes
line_at none = []
line_at (some op) = digest_line op

unfoldable pub digest_lines : Dict ℤ TxOperation → List ℤ → Bytes
unfolding digest_line
digest_lines ops [] = []
digest_lines ops (seq ∷ seqs) = line_at (lookup ops seq) ++ digest_lines ops seqs

unfoldable pub digest : Std → Transaction → Bytes
unfolding digest_lines
digest std t =
    let seqs = sort ltb_ℤ (map (λ entry. entry.0) t.ops) in
    codes "sha256:" ++ hex (std.sha256 (digest_lines t.ops seqs))

unfoldable pub same_op : TxOperation → TxOperation → Bool
same_op a b =
    bytes_eq a.op_id b.op_id
    && bytes_eq a.op_type b.op_type
    && bytes_eq a.key b.key
    && bytes_eq a.content_type b.content_type
    && bytes_eq a.body_hash b.body_hash

-- ^[A-Za-z0-9_.:-]{1,128}$
unfoldable pub valid_tx_id : Bytes → Bool
valid_tx_id id =
    leb 1 (length id) && leb (length id) 128 && all_chars (λ c. is_segment_char c || c == b':') id

decimal_1000 : decimal (pos 1000) ≡ codes "1000"
unfolding decimal
decimal_1000 = refl
