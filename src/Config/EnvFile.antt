-- ===== src/Config/EnvFile.antt =====
-- readEnvFile, unquote, LoadFromFile of internal/config/config.go.
use httpkvdb.Base.{
  ℕ, ◌+◌, ◌-◌, Bool, false, ◌&&◌, ◌||◌, Option, none, some, List, [], ◌∷◌, length, take, leb, ◌==◌,
  if◌then◌else◌,
}
use httpkvdb.Base.Bytes.{Bytes, codes, bytes_key, is_empty}
use httpkvdb.Base.Dict.{Dict, insert}
use httpkvdb.Golang.Text.{trim_space, has_prefix, trim_prefix, cut, split}
use httpkvdb.Golang.Stream.{Stream}
use httpkvdb.Config.Settings.{Config, from_values}

pub data FileError : Type 0 where
  not_opened not_read : FileError
  invalid_line : ℕ → FileError

pub data Loaded (A : Type 0) : Type 0 where
  loaded : A → Loaded A
  refused : FileError → Loaded A

-- bufio.ScanLines: the lines between the line ends, and no empty one at the end of the file.
unfoldable pub drop_last_empty : List Bytes → List Bytes
drop_last_empty [] = []
drop_last_empty ([] ∷ []) = []
drop_last_empty (line ∷ lines) = line ∷ drop_last_empty lines

unfoldable pub scan_lines : Bytes → List Bytes
unfolding drop_last_empty
scan_lines text = drop_last_empty (split 10 text)

-- A buffer of bufio.Scanner holds 64 KiB.
abbrev pub max_line : ℕ
max_line = 65536

abbrev last_byte : Bytes → ℕ
last_byte [] = 0
last_byte (b ∷ []) = b
last_byte (b ∷ c ∷ r) = last_byte (c ∷ r)

-- value[1 : len(value)-1]
abbrev inner : Bytes → Bytes
inner [] = []
inner (b ∷ bs) = take (length bs - 1) bs

abbrev quoted_by : ℕ → Bytes → Bool
quoted_by q [] = false
quoted_by q (b ∷ bs) = b == q && last_byte (b ∷ bs) == q

-- `go_unquote` is strconv.Unquote.
unfoldable pub unquote : (Bytes → Option Bytes) → Bytes → Bytes
unquote go_unquote value =
    if leb 2 (length value) && (quoted_by 34 value || quoted_by 39 value)
    then elim (go_unquote value) [ some v ↦ v | none ↦ inner value ]
    else value

-- What a line says: nothing, a key with its raw value, or an error.
pub data Line : Type 0 where
  skipped : Line
  entry : Bytes → Bytes → Line
  malformed : Line

abbrev entry_of : Option (Bytes × Bytes) → Line
entry_of none = malformed
entry_of (some (key, raw)) =
    if is_empty (trim_space key) then malformed else entry (trim_space key) (trim_space raw)

unfoldable pub parse_line : Bytes → Line
parse_line raw =
    let line = trim_space raw in
    if is_empty line || has_prefix line (codes "#")
    then skipped
    else entry_of (cut b'=' (trim_prefix line (codes "export ")))

module _ (go_unquote : Bytes → Option Bytes) where
  -- The loop over the lines, with the number of the first. A line ending in CR LF loses
  -- the CR in TrimSpace as it does in ScanLines.
  unfoldable pub read_lines : ℕ → List Bytes → Dict Bytes Bytes → Loaded (Dict Bytes Bytes)
  read_lines number [] values = loaded values
  read_lines number (raw ∷ lines) values =
      let skip = read_lines (number + 1) lines values in
      let next = λ (key v : Bytes).
        read_lines (number + 1) lines (insert values key (unquote go_unquote v)) in
      if leb max_line (length raw) then refused not_read else elim (parse_line raw) [
        | skipped ↦ skip
        | entry key v ↦ next key v
        | malformed ↦ refused (invalid_line number)
      ]

  -- No file: os.Open fails.
  unfoldable pub read_env_file : Option Stream → Loaded (Dict Bytes Bytes)
  read_env_file none = refused not_opened
  read_env_file (some file) = elim (read_lines 1 (scan_lines file.bytes) []) [
    | refused e ↦ refused e
    | loaded values ↦ if file.fails then refused not_read else loaded values
  ]

  unfoldable pub load_from_file : Option Stream → Loaded Config
  load_from_file file = elim (read_env_file file) [
    | refused e ↦ refused e
    | loaded values ↦ loaded (from_values values)
  ]
