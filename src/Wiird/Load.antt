-- ===== src/Wiird/Load.antt =====
-- `wiird_load_txt` and `wiird_load_gct` of src/wiird.rs: codesets from the text of a file, with a
-- code in hexadecimal on every line that starts with a star, and from its bytes. The contents of
-- the file, or the error that the system gives, are arguments. A character is its code point.
use brawllib_rs.Prelude.{
  ℕ, zero, suc, ◌+◌, ◌-◌, ◌*◌, Bool, true, false, ◌&&◌, List, [], ◌∷◌, ◌++◌, Option, none, some,
  length, ltb, leb, ◌==◌, if◌then◌else◌,
}
use brawllib_rs.Outcome.{Outcome, ok, panic, ◌>>=◌, index, unwrap}
use brawllib_rs.Bytes.{Bytes, BigEndian, slice_from}
use brawllib_rs.Bytes.Reference.{bytes_of}
use brawllib_rs.Wiird.Block.{WiirdBlock}
use brawllib_rs.Wiird.Parse.{wiird_codes}

-- The errors, each with a message of its own in the source.
pub data LoadError : Type 0 where
  non_hex more_than_16 less_than_16 less_than_8_bytes not_utf8 cannot_read : LoadError

pub data Loaded {ℓ} (A : Type ℓ) : Type ℓ where
  loaded : A → Loaded A
  failed : LoadError → Loaded A

-- `text.lines()`: lines end with a line feed, or with a carriage return and a line feed.
unfoldable pub starts_with : ℕ → List ℕ → Bool
starts_with c [] = false
starts_with c (x ∷ xs) = x == c

abbrev pub prepend : ℕ → List (List ℕ) → List (List ℕ)
prepend c [] = (c ∷ []) ∷ []
prepend c (l ∷ ls) = (c ∷ l) ∷ ls

unfoldable pub lines : List ℕ → List (List ℕ)
unfolding starts_with
lines [] = []
lines (c ∷ cs) =
    let rest = lines cs in
    if c == 0x0A
    then [] ∷ rest
    else if (c == 0x0D) && starts_with 0x0A cs
    then rest
    else prepend c rest

-- `s.replace(c, "")` for one character
unfoldable pub remove : ℕ → List ℕ → List ℕ
remove c [] = []
remove c (x ∷ xs) = let rest = remove c xs in if x == c then rest else x ∷ rest

-- `c.to_digit(16)`
unfoldable pub to_digit : ℕ → Option ℕ
to_digit c =
    if leb 0x30 c && leb c 0x39
    then some (c - 0x30)
    else if leb 0x41 c && leb c 0x46
    then some (c - 0x41 + 10)
    else if leb 0x61 c && leb c 0x66
    then some (c - 0x61 + 10)
    else none

-- `c.is_digit(16)`
unfoldable pub is_digit : ℕ → Bool
unfolding to_digit
is_digit c = elim (to_digit c) [ none ↦ false | some d ↦ true ]

-- `hex_chars.iter().any(|x| !x.is_digit(16))`
unfoldable pub any_non_hex : List ℕ → Bool
unfolding is_digit
any_non_hex [] = false
any_non_hex (c ∷ cs) = let rest = any_non_hex cs in if is_digit c then rest else true

-- `hex_chars[k].to_digit(16).unwrap()`
unfoldable pub digit_at : List ℕ → ℕ → Outcome ℕ
digit_at hex_chars k = do c ← index hex_chars k; unwrap (to_digit c)

-- `for i in 0..8 { ... data.push((first << 4) | second); }`, from `i` on with `n` rounds left. The
-- digits are below 16, so the bits of the two do not overlap.
unfoldable pub hex_bytes : ℕ → List ℕ → (i : ℕ) → Outcome (List ℕ)
unfolding digit_at
hex_bytes zero hex_chars i = ok []
hex_bytes (suc n) hex_chars i = do
  first ← digit_at hex_chars (i * 2)
  second ← digit_at hex_chars (i * 2 + 1)
  rest ← hex_bytes n hex_chars (i + 1)
  ok ((first * 16 + second) ∷ rest)

-- The body of `if line.starts_with("*")`.
unfoldable pub load_line : List ℕ → Outcome (Loaded (List ℕ))
load_line line =
    let hex_chars = remove 0x20 (remove 0x2A line) in
    if any_non_hex hex_chars
    then ok (failed non_hex)
    else if ltb 16 (length hex_chars)
    then ok (failed more_than_16)
    else if ltb (length hex_chars) 16
    then ok (failed less_than_16)
    else (do bytes ← hex_bytes 8 hex_chars 0; ok (loaded bytes))

-- `for line in text.lines()`, with the bytes read so far
unfoldable pub load_lines : List (List ℕ) → (codes : List ℕ) → Outcome (Loaded (List ℕ))
load_lines [] codes = ok (loaded codes)
load_lines (line ∷ rest) codes = elim (starts_with 0x2A line) [
  | false ↦ load_lines rest codes
  | true ↦ elim (load_line line) [
    | panic ↦ panic
    | ok (failed e) ↦ ok (failed e)
    | ok (loaded bytes) ↦ load_lines rest (codes ++ bytes)
  ]
]

unfoldable pub load_text : List ℕ → Outcome (Loaded (List ℕ))
unfolding load_lines lines
load_text text = load_lines (lines text) []

-- `wiird_codes` on the bytes of a list.
abbrev pub parsed : BigEndian → Bytes → Option (Outcome (Loaded WiirdBlock))
parsed be bytes = elim (wiird_codes be bytes) [
  | none ↦ none
  | some panic ↦ some panic
  | some (ok block) ↦ some (ok (loaded block))
]

-- The argument is what `fs::read_to_string` gives, the error by whether it is `InvalidData`.
unfoldable pub wiird_load_txt : BigEndian → Loaded (List ℕ) → Option (Outcome (Loaded WiirdBlock))
unfolding load_text
wiird_load_txt be (failed e) = some (ok (failed e))
wiird_load_txt be (loaded text) = elim (load_text text) [
  | panic ↦ some panic
  | ok (failed e) ↦ some (ok (failed e))
  | ok (loaded bytes) ↦ parsed be (bytes_of bytes)
]

-- The argument is what `File::open` and `read_to_end` give.
unfoldable pub wiird_load_gct : BigEndian → Loaded Bytes → Option (Outcome (Loaded WiirdBlock))
unfolding slice_from
wiird_load_gct be (failed e) = some (ok (failed e))
wiird_load_gct be (loaded bytes) = elim (ltb bytes.len 8) [
  | true ↦ some (ok (failed less_than_8_bytes))
  | false ↦ elim (slice_from bytes 8) [ panic ↦ some panic | ok codes ↦ parsed be codes ]
]
