-- ===== src/Wiird/TextLaws.antt =====
-- The text loader of src/wiird.rs gives the bytes of a text, or the error of its first line without a code.
use mathlib.Core.List.{append-nil, append_assoc}
use brawllib_rs.Prelude.{
  ℕ, zero, suc, ◌+◌, ◌-◌, ◌*◌, ◌<◌, ◌≡◌, ◌⊎◌, refl, sym, ap, ◌∙◌, inl, inr, true, false, ◌&&◌, List,
  [], ◌∷◌, ◌++◌, none, some, length, drop, All, All-mono, ltb, leb, ◌==◌, ltb→lt, Bool-cases, arith,
}
use brawllib_rs.Outcome.{ok, index, unwrap}
use brawllib_rs.Wiird.Load.{
  non_hex, more_than_16, less_than_16, Loaded, loaded, failed, lines, starts_with, remove, to_digit,
  is_digit, any_non_hex, digit_at, hex_bytes, load_line, load_lines, load_text,
}
use brawllib_rs.Wiird.Texts.{
  IsDigit, IsOther, Any, Hex, empty, byte, kept, IsCodeLine, ReadsLine, FailsLine, Reads, Fails,
  ends, passes, reads, fails,
}

-- A character that is known to be a digit.
abbrev Known : ℕ → Type 0
Known c = (d : ℕ) × (to_digit c ≡ some d) × IsDigit c d

to_digit-Known : (c : ℕ) → Known c ⊎ (to_digit c ≡ none) × IsOther c
unfolding to_digit
to_digit-Known c = elim (Bool-cases (leb 0x30 c && leb c 0x39)) [
  | inl a ↦ rw a (inl (c - 0x30, refl, inl (ground arith, ground arith)))
  | inr a ↦ elim (Bool-cases (leb 0x41 c && leb c 0x46)) [
    | inl b ↦
        rw (a, b) (inl (c - 0x41 + 10, refl, inr (inl (ground arith, ground arith, ground arith))))
    | inr b ↦ elim (Bool-cases (leb 0x61 c && leb c 0x66)) [
      | inl d ↦
          rw (a, b, d)
            (inl (c - 0x61 + 10, refl, inr (inr (ground arith, ground arith, ground arith))))
      | inr d ↦ rw (a, b, d) (inr (refl, ground arith))
    ]
  ]
]

any_non_hex-cases :
    (cs : List ℕ)
    → (any_non_hex cs ≡ false) × All Known cs ⊎ (any_non_hex cs ≡ true) × Any IsOther cs
unfolding any_non_hex is_digit
any_non_hex-cases [] = inl (refl, tt)
any_non_hex-cases (c ∷ cs) = elim (to_digit-Known c) [
  | inr (e, other) ↦ inr (rw (e, any_non_hex, is_digit) refl, inl other)
  | inl (d, e, is) ↦ elim (any_non_hex-cases cs) [
    | inl (h, all) ↦ inl (rw (e, any_non_hex, is_digit) h, ((d, e, is), all))
    | inr (h, any) ↦ inr (rw (e, any_non_hex, is_digit) h, inr any)
  ]
]

remove-kept : (line : List ℕ) → remove 0x20 (remove 0x2A line) ≡ kept line
unfolding remove
remove-kept [] = refl
remove-kept (c ∷ cs) = elim (Bool-cases (c == 0x2A)) [
  | inl star ↦ rw star (remove-kept cs)
  | inr other ↦ elim (Bool-cases (c == 0x20)) [
    | inl space ↦ rw (other, space, remove) (remove-kept cs)
    | inr stays ↦ rw (other, stays, remove) (ap (λ r. c ∷ r) (remove-kept cs))
  ]
]

-- The character at an index, with what is from there on.
digit_at-Known :
    (cs : List ℕ) (k : ℕ)
    → All Known cs
    → k < length cs
    → (c d : ℕ) × (digit_at cs k ≡ ok d) × IsDigit c d × (drop k cs ≡ c ∷ drop (suc k) cs)
unfolding digit_at index
digit_at-Known [] k all inside = absurd (omega arith)
digit_at-Known (c ∷ cs) zero ((d, e, is), all) inside = (c, d, ap unwrap e, is, refl)
digit_at-Known (c ∷ cs) (suc k) (known, all) inside =
    digit_at-Known cs k all (omega (arith, inside))

drop-end : (cs : List ℕ) (k : ℕ) → k ≡ length cs → drop k cs ≡ []
drop-end [] zero end = refl
drop-end [] (suc k) end = refl
drop-end (c ∷ cs) zero end = absurd (omega arith)
drop-end (c ∷ cs) (suc k) end = drop-end cs k (omega arith)

hex_bytes-Hex :
    (n : ℕ) (cs : List ℕ) (i : ℕ)
    → All Known cs
    → (i + n) * 2 ≡ length cs
    → (bytes : List ℕ) × (hex_bytes n cs i ≡ ok bytes)
      × Hex (drop (i * 2) cs) bytes
      × (length bytes ≡ n)
unfolding hex_bytes
hex_bytes-Hex zero cs i all room = ([], refl, rw (drop-end cs (i * 2) (omega arith)) empty, refl)
hex_bytes-Hex (suc n) cs i all room =
    let (c, d, e, is, at) = digit_at-Known cs (i * 2) all (omega arith) in
    let (c', d', e', is', at') = digit_at-Known cs (i * 2 + 1) all (omega arith) in
    let (rest, e'', hex, len) = hex_bytes-Hex n cs (i + 1) all (omega arith) in
    let second : suc (i * 2) ≡ i * 2 + 1 = omega arith in
    let third : suc (i * 2 + 1) ≡ (i + 1) * 2 = omega arith in
    (
      (d * 16 + d') ∷ rest,
      rw (e, e', e'') refl,
      rw (at, second, at', third) (byte is is' hex),
      ap suc len,
    )

-- What a line with a star gives.
abbrev LineGives : List ℕ → Loaded (List ℕ) → Type 0
LineGives line (loaded bytes) = ReadsLine line bytes
LineGives line (failed e) = FailsLine line e

load_line-LineGives :
    (line : List ℕ) → (r : Loaded (List ℕ)) × (load_line line ≡ ok r) × LineGives line r
unfolding load_line
load_line-LineGives line = elim (any_non_hex-cases (kept line)) [
  | inr (h, any) ↦ rw (remove-kept line, h) (failed non_hex, refl, any)
  | inl (h, all) ↦ elim (Bool-cases (ltb 16 (length (kept line)))) [
    | inl long ↦
        rw (remove-kept line, h, long)
          (
            failed more_than_16,
            refl,
            (All-mono (kept line) (λ c known. (known.0, known.2)) all, ltb→lt _ _ long),
          )
    | inr fits ↦ elim (Bool-cases (ltb (length (kept line)) 16)) [
      | inl short ↦
          rw (remove-kept line, h, fits, short)
            (
              failed less_than_16,
              refl,
              (All-mono (kept line) (λ c known. (known.0, known.2)) all, ltb→lt _ _ short),
            )
      | inr full ↦
          let (bytes, e, hex, len) = hex_bytes-Hex 8 (kept line) 0 all (ground arith) in
          rw (remove-kept line, h, fits, full, e) (loaded bytes, refl, (hex, len))
    ]
  ]
]

-- What lines give after the bytes read before them.
abbrev LinesGive : List (List ℕ) → List ℕ → Loaded (List ℕ) → Type 0
LinesGive ls codes (loaded bytes) = (more : List ℕ) × (bytes ≡ codes ++ more) × Reads ls more
LinesGive ls codes (failed e) = Fails ls e

passing :
    (line : List ℕ) (ls : List (List ℕ)) (codes : List ℕ)
    → starts_with 0x2A line ≡ false
    → (r : Loaded (List ℕ)) → LinesGive ls codes r
    → LinesGive (line ∷ ls) codes r
passing line ls codes plain (loaded bytes) (more, e, reading) = (more, e, passes plain reading)
passing line ls codes plain (failed e) failing = passes plain failing

read_more :
    (line code : List ℕ) (ls : List (List ℕ)) (codes : List ℕ)
    → IsCodeLine line
    → ReadsLine line code
    → (r : Loaded (List ℕ)) → LinesGive ls (codes ++ code) r
    → LinesGive (line ∷ ls) codes r
read_more line code ls codes star gives (loaded bytes) (more, e, reading) =
    (code ++ more, e ∙ append_assoc codes code more, reads star gives reading)
read_more line code ls codes star gives (failed e) failing = reads star gives failing

-- A line with a star, before lines of which this is known after all bytes.
star_line :
    (line : List ℕ) (ls : List (List ℕ)) (codes : List ℕ)
    → IsCodeLine line
    → ((codes' : List ℕ)
        → (r : Loaded (List ℕ)) × (load_lines ls codes' ≡ ok r) × LinesGive ls codes' r)
    → (read : Loaded (List ℕ)) → load_line line ≡ ok read
    → LineGives line read
    → (r : Loaded (List ℕ)) × (load_lines (line ∷ ls) codes ≡ ok r) × LinesGive (line ∷ ls) codes r
unfolding load_lines
star_line line ls codes star rest (failed x) e failing =
    (failed x, rw (star, e, load_lines) refl, fails star failing)
star_line line ls codes star rest (loaded code) e reading =
    let (r, e', gives) = rest (codes ++ code) in
    (r, rw (star, e, load_lines) e', read_more line code ls codes star reading r gives)

load_lines-LinesGive :
    (ls : List (List ℕ)) (codes : List ℕ)
    → (r : Loaded (List ℕ)) × (load_lines ls codes ≡ ok r) × LinesGive ls codes r
unfolding load_lines
load_lines-LinesGive [] codes = (loaded codes, refl, ([], sym (append-nil codes), ends))
load_lines-LinesGive (line ∷ ls) codes = elim (Bool-cases (starts_with 0x2A line)) [
  | inr plain ↦
      let (r, e, gives) = load_lines-LinesGive ls codes in
      (r, rw (plain, load_lines) e, passing line ls codes plain r gives)
  | inl star ↦
      let (read, e, gives) = load_line-LineGives line in
      star_line line ls codes star (load_lines-LinesGive ls) read e gives
]

-- What a text gives: the bytes of its codes, or the error of its first line without one.
abbrev pub TextGives : List ℕ → Loaded (List ℕ) → Type 0
TextGives text (loaded bytes) = Reads (lines text) bytes
TextGives text (failed e) = Fails (lines text) e

pub load_text-TextGives :
    (text : List ℕ) → (r : Loaded (List ℕ)) × (load_text text ≡ ok r) × TextGives text r
unfolding load_text
load_text-TextGives text =
    let (r, e, gives) = load_lines-LinesGive (lines text) [] in (r, e, of_lines r gives)
  where
    of_lines : (r : Loaded (List ℕ)) → LinesGive (lines text) [] r → TextGives text r
    of_lines (loaded bytes) (more, same, reading) = rw same reading
    of_lines (failed x) failing = failing
