-- ===== src/Wiird/PrintLaws.antt =====
-- The text loader of src/wiird.rs reads back the codes of a printed text.
use mathlib.Core.List.{append-nil, append_assoc}
use brawllib_rs.Prelude.{
  ℕ, ◌+◌, ◌*◌, ◌/◌, ◌%◌, ◌<◌, ◌≡◌, sym, refl, ap, true, false, List, [], ◌∷◌, ◌++◌, length,
  length-append, All, All-append, All-mono, ◌==◌, arith,
}
use brawllib_rs.Outcome.{ok, index}
use brawllib_rs.Wiird.Load.{
  loaded, lines, starts_with, remove, any_non_hex, digit_at, hex_bytes, load_line, load_lines,
  load_text,
}
use brawllib_rs.Wiird.Print.{
  print_digit, print_bytes, print_code, print_codes, to_digit-print_digit, print_bytes-IsKept,
  length-print_bytes, any_non_hex-IsKept, remove-IsKept,
}

index-append :
    (prefix : List ℕ) (c : ℕ) (cs : List ℕ) → index (prefix ++ c ∷ cs) (length prefix) ≡ ok c
unfolding index
index-append [] c cs = refl
index-append (x ∷ prefix) c cs = index-append prefix c cs

digit_at-append :
    (prefix : List ℕ) (d : ℕ) (cs : List ℕ) (k : ℕ)
    → d < 16
    → k ≡ length prefix
    → digit_at (prefix ++ print_digit d ∷ cs) k ≡ ok d
unfolding digit_at
digit_at-append prefix d cs k small at =
    rw (at, index-append prefix (print_digit d) cs, to_digit-print_digit d small) refl

-- The loop over the digits, at byte `i`, reads the bytes that are left.
hex_bytes-print_bytes :
    (bs prefix : List ℕ) (i : ℕ)
    → length prefix ≡ i * 2
    → All (λ b. b < 256) bs
    → hex_bytes (length bs) (prefix ++ print_bytes bs) i ≡ ok bs
unfolding hex_bytes print_bytes index
hex_bytes-print_bytes [] prefix i at small = refl
hex_bytes-print_bytes (b ∷ bs) prefix i at (b_small, small) =
    let high = print_digit (b / 16) in
    let low = print_digit (b % 16) in
    let chars = prefix ++ high ∷ low ∷ print_bytes bs in
    let first : digit_at chars (i * 2) ≡ ok (b / 16) =
      digit_at-append prefix (b / 16) (low ∷ print_bytes bs) (i * 2) (omega arith) (sym at) in
    let second : digit_at chars (i * 2 + 1) ≡ ok (b % 16) =
      rw (← append_assoc prefix (high ∷ []) (low ∷ print_bytes bs)) (
        digit_at-append (prefix ++ high ∷ []) (b % 16) (print_bytes bs) (i * 2 + 1) (omega arith)
          (omega (arith, length-append prefix (high ∷ [])))) in
    let rest : hex_bytes (length bs) chars (i + 1) ≡ ok bs =
      rw (← append_assoc prefix (high ∷ low ∷ []) (print_bytes bs)) (
        hex_bytes-print_bytes bs (prefix ++ high ∷ low ∷ []) (i + 1)
          (omega (arith, length-append prefix (high ∷ low ∷ []))) small) in
    let whole : b / 16 * 16 + b % 16 ≡ b = omega arith in rw (first, second, rest, whole) refl

lines-append :
    (cs rest : List ℕ)
    → All (λ c. ((c == 0x0A) ≡ false) × ((c == 0x0D) ≡ false)) cs
    → lines (cs ++ 0x0A ∷ rest) ≡ cs ∷ lines rest
unfolding lines
lines-append [] rest h = refl
lines-append (c ∷ cs) rest h = rw (h.0.0, h.0.1, lines-append cs rest h.1) refl

print_bytes-append : (xs ys : List ℕ) → print_bytes (xs ++ ys) ≡ print_bytes xs ++ print_bytes ys
unfolding print_bytes
print_bytes-append [] ys = refl
print_bytes-append (x ∷ xs) ys =
    ap (λ r. print_digit (x / 16) ∷ print_digit (x % 16) ∷ r) (print_bytes-append xs ys)

remove-nothing : (c : ℕ) (cs : List ℕ) → All (λ x. (x == c) ≡ false) cs → remove c cs ≡ cs
unfolding remove
remove-nothing c [] h = refl
remove-nothing c (x ∷ cs) h = rw (h.0) (ap (λ r. x ∷ r) (remove-nothing c cs h.1))

-- One line.
module _ (high low : List ℕ) (high_bytes : All (λ b. b < 256) high)
    (low_bytes : All (λ b. b < 256) low) where
  no_star : (bs : List ℕ) → All (λ b. b < 256) bs → All (λ x. (x == 0x2A) ≡ false) (print_bytes bs)
  no_star bs h = All-mono (print_bytes bs) (λ c k. k.1) (print_bytes-IsKept bs h)

  no_space : (bs : List ℕ) → All (λ b. b < 256) bs → All (λ x. (x == 0x20) ≡ false) (print_bytes bs)
  no_space bs h = All-mono (print_bytes bs) (λ c k. k.2) (print_bytes-IsKept bs h)

  in_line :
      (bs : List ℕ)
      → All (λ b. b < 256) bs
      → All (λ c. ((c == 0x0A) ≡ false) × ((c == 0x0D) ≡ false)) (print_bytes bs)
  in_line bs h = All-mono (print_bytes bs) (λ c k. (k.3, k.4)) (print_bytes-IsKept bs h)

  -- Without the star and the spaces, a printed code is its digits.
  remove-print_code : remove 0x20 (remove 0x2A (print_code high low)) ≡ print_bytes (high ++ low)
  unfolding print_code remove
  remove-print_code =
      rw
        (
          remove-IsKept 0x2A (print_bytes high) (0x20 ∷ print_bytes low) (no_star high high_bytes),
          remove-nothing 0x2A (print_bytes low) (no_star low low_bytes),
          remove-IsKept 0x20 (print_bytes high) (0x20 ∷ print_bytes low) (no_space high high_bytes),
          remove-nothing 0x20 (print_bytes low) (no_space low low_bytes),
        )
        (sym (print_bytes-append high low))

  load_line-print_code :
      length high + length low ≡ 8 → load_line (print_code high low) ≡ ok (loaded (high ++ low))
  unfolding load_line
  load_line-print_code eight =
      let bytes = high ++ low in
      let small = All-append (λ b. b < 256) high low high_bytes low_bytes in
      let digits = any_non_hex-IsKept (print_bytes bytes) (print_bytes-IsKept bytes small) in
      let len : length bytes ≡ 8 = omega (arith, length-append high low) in
      let len16 : length (print_bytes bytes) ≡ 16 = omega (arith, length-print_bytes bytes) in
      let read : hex_bytes 8 (print_bytes bytes) 0 ≡ ok bytes =
        rw (← len) (hex_bytes-print_bytes bytes [] 0 refl small) in
      rw (remove-print_code, digits, len16, read) refl

  lines-print_code :
      (rest : List ℕ)
      → lines (print_code high low ++ 0x0A ∷ rest) ≡ print_code high low ∷ lines rest
  unfolding print_code
  lines-print_code rest = lines-append (print_code high low) rest (
    (refl, refl),
    (
      (refl, refl),
      All-append _ (print_bytes high) (0x20 ∷ print_bytes low) (in_line high high_bytes)
          ((refl, refl), in_line low low_bytes),
    ),
  )

-- Codes of 8 bytes, each in two parts.
abbrev pub IsPrintable : List (List ℕ × List ℕ) → Type 0
IsPrintable [] = Unit
IsPrintable ((high, low) ∷ codes) =
    (length high + length low ≡ 8)
    × All (λ b. b < 256) high
    × All (λ b. b < 256) low
    × IsPrintable codes

abbrev pub code_bytes : List (List ℕ × List ℕ) → List ℕ
code_bytes [] = []
code_bytes ((high, low) ∷ codes) = (high ++ low) ++ code_bytes codes

starts_with-print_code : (high low : List ℕ) → starts_with 0x2A (print_code high low) ≡ true
unfolding starts_with print_code
starts_with-print_code high low = refl

load_lines-print_codes :
    (codes : List (List ℕ × List ℕ)) (acc : List ℕ)
    → IsPrintable codes
    → load_lines (lines (print_codes codes)) acc ≡ ok (loaded (acc ++ code_bytes codes))
unfolding print_codes lines load_lines load_line any_non_hex remove
load_lines-print_codes [] acc h = rw (append-nil acc) refl
load_lines-print_codes ((high, low) ∷ codes) acc (eight, high_bytes, low_bytes, h) =
    rw
      (
        lines-print_code high low high_bytes low_bytes (print_codes codes),
        load_lines,
        starts_with-print_code high low,
        load_line-print_code high low high_bytes low_bytes eight,
        load_lines-print_codes codes (acc ++ (high ++ low)) h,
      )
      (ap (λ r. ok (loaded r)) (append_assoc acc (high ++ low) (code_bytes codes)))

-- The loader gives back the bytes of every code of 8 bytes that is printed as a line of its own, a
-- star and 16 digits with spaces between.
pub load_text-print_codes :
    (codes : List (List ℕ × List ℕ))
    → IsPrintable codes
    → load_text (print_codes codes) ≡ ok (loaded (code_bytes codes))
unfolding load_text
load_text-print_codes codes h = load_lines-print_codes codes [] h
