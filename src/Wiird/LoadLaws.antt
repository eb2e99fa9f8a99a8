-- ===== src/Wiird/LoadLaws.antt =====
-- The text loader of src/wiird.rs does not panic: every `unwrap` and index that it does is behind
-- a check.
use brawllib_rs.Prelude.{
  ℕ, zero, suc, ◌+◌, ◌-◌, ◌*◌, ◌≤◌, ◌<◌, ◌≡◌, ◌⊎◌, refl, ap, inl, inr, true, false, ◌&&◌, List, [],
  ◌∷◌, ◌++◌, none, some, length, All, All-append, length-append, ltb, leb, ltb→le, Bool-cases,
  if◌then◌else◌, arith,
}
use brawllib_rs.Outcome.{Outcome, ok, panic, index, unwrap}
use brawllib_rs.Wiird.Load.{
  non_hex, more_than_16, less_than_16, Loaded, loaded, failed, lines, starts_with, remove, to_digit,
  is_digit, any_non_hex, digit_at, hex_bytes, load_line, load_lines, load_text,
}

-- A digit stands for a number below 16.
to_digit-cases : (c : ℕ) → (to_digit c ≡ none) ⊎ ((d : ℕ) × (to_digit c ≡ some d) × (d < 16))
unfolding to_digit
to_digit-cases c = elim (Bool-cases (leb 0x30 c && leb c 0x39)) [
  | inl a ↦ rw a (inr (c - 0x30, refl, ground arith))
  | inr a ↦ elim (Bool-cases (leb 0x41 c && leb c 0x46)) [
    | inl b ↦ rw (a, b) (inr (c - 0x41 + 10, refl, ground arith))
    | inr b ↦ elim (Bool-cases (leb 0x61 c && leb c 0x66)) [
      | inl d ↦ rw (a, b, d) (inr (c - 0x61 + 10, refl, ground arith))
      | inr d ↦ rw (a, b, d) (inl refl)
    ]
  ]
]

any_non_hex-cons :
    (c : ℕ) (cs : List ℕ)
    → any_non_hex (c ∷ cs) ≡ false
    → (is_digit c ≡ true) × (any_non_hex cs ≡ false)
unfolding any_non_hex
any_non_hex-cons c cs h =
    let test : (if is_digit c then any_non_hex cs else true) ≡ false = h in
    elim (Bool-cases (is_digit c)) [
      | inl d ↦ (d, rw d at test)
      | inr d ↦ absurd (let wrong : true ≡ false = rw d at test in cc)
    ]

-- A character that the check has passed is read without a panic.
digit_at-total :
    (cs : List ℕ) (k : ℕ)
    → any_non_hex cs ≡ false
    → k < length cs
    → (d : ℕ) × (digit_at cs k ≡ ok d) × (d < 16)
unfolding digit_at index is_digit
digit_at-total [] k h inside = absurd (omega arith)
digit_at-total (c ∷ cs) zero h inside =
    let digit = (any_non_hex-cons c cs h).0 in
    elim (to_digit-cases c) [
      | inl e ↦ absurd (let wrong : false ≡ true = rw (e, is_digit) at digit in cc)
      | inr (d, e, small) ↦ (d, ap unwrap e, small)
    ]
digit_at-total (c ∷ cs) (suc k) h inside =
    digit_at-total cs k (any_non_hex-cons c cs h).1 (omega (arith, inside))

hex_bytes-total :
    (n : ℕ) (cs : List ℕ) (i : ℕ)
    → any_non_hex cs ≡ false
    → (i + n) * 2 ≤ length cs
    → (bytes : List ℕ) × (hex_bytes n cs i ≡ ok bytes)
      × (length bytes ≡ n)
      × All (λ b. b < 256) bytes
unfolding hex_bytes
hex_bytes-total zero cs i h room = ([], refl, refl, tt)
hex_bytes-total (suc n) cs i h room =
    let (first, e, first_small) = digit_at-total cs (i * 2) h (omega arith) in
    let (second, e', second_small) = digit_at-total cs (i * 2 + 1) h (omega arith) in
    let (rest, e'', len, small) = hex_bytes-total n cs (i + 1) h (omega arith) in
    ((first * 16 + second) ∷ rest, rw (e, e', e'') refl, ap suc len, (omega arith, small))

-- The bytes of one code.
abbrev pub IsCode : Loaded (List ℕ) → Type 0
IsCode (loaded bytes) = (length bytes ≡ 8) × All (λ b. b < 256) bytes
IsCode (failed e) = Unit

load_line-total : (line : List ℕ) → (r : Loaded (List ℕ)) × (load_line line ≡ ok r) × IsCode r
unfolding load_line
load_line-total line =
    let cs = remove 0x20 (remove 0x2A line) in
    elim (Bool-cases (any_non_hex cs)) [
      | inl h ↦ rw h (failed non_hex, refl, tt)
      | inr h ↦ elim (Bool-cases (ltb 16 (length cs))) [
        | inl k ↦ rw (h, k) (failed more_than_16, refl, tt)
        | inr k ↦ elim (Bool-cases (ltb (length cs) 16)) [
          | inl l ↦ rw (h, k, l) (failed less_than_16, refl, tt)
          | inr l ↦
              let (bytes, e, len, small) = hex_bytes-total 8 cs 0 h (omega (arith, ltb→le _ _ l)) in
              rw (h, k, l, e) (loaded bytes, refl, (len, small))
        ]
      ]
    ]

-- The number of lines that hold a code.
abbrev pub count_codes : List (List ℕ) → ℕ
count_codes [] = 0
count_codes (line ∷ rest) = let n = count_codes rest in if starts_with 0x2A line then suc n else n

-- The bytes of `n` codes after those of `codes`.
abbrev pub IsLoaded : ℕ → Loaded (List ℕ) → Type 0
IsLoaded n (loaded bytes) = (length bytes ≡ n) × All (λ b. b < 256) bytes
IsLoaded n (failed e) = Unit

abbrev LoadsFrom : List (List ℕ) → Type 0
LoadsFrom text_lines =
    (codes : List ℕ)
    → All (λ b. b < 256) codes
    → (r : Loaded (List ℕ)) × (load_lines text_lines codes ≡ ok r)
      × IsLoaded (length codes + 8 * count_codes text_lines) r

-- A line with a code, given that the lines after it are loaded.
code-Loads :
    (rest : List (List ℕ)) (codes : List ℕ)
    → LoadsFrom rest
    → All (λ b. b < 256) codes
    → (result : Outcome (Loaded (List ℕ))) → (r : Loaded (List ℕ)) × (result ≡ ok r) × IsCode r
    → (r : Loaded (List ℕ)) × ((elim result [
      | panic ↦ panic
      | ok (failed e) ↦ ok (failed e)
      | ok (loaded bytes) ↦ load_lines rest (codes ++ bytes)
    ])
        ≡ ok r)
      × IsLoaded (length codes + 8 * suc (count_codes rest)) r
code-Loads rest codes later small result (failed x, e, h) = rw e (failed x, refl, tt)
code-Loads rest codes later small result (loaded bytes, e, h) =
    let (r, ends, more) =
      later (codes ++ bytes) (All-append (λ b. b < 256) codes bytes small h.1) in
    let n : length codes + 8 * suc (count_codes rest)
        ≡ length (codes ++ bytes) + 8 * count_codes rest =
      omega (arith, length-append codes bytes, h.0) in
    rw (e, n) (r, ends, more)

load_lines-total : (text_lines : List (List ℕ)) → LoadsFrom text_lines
unfolding load_lines
load_lines-total [] codes small =
    let n : length codes + 8 * 0 ≡ length codes = omega arith in
    (loaded codes, refl, rw n (refl, small))
load_lines-total (line ∷ rest) codes small = elim (Bool-cases (starts_with 0x2A line)) [
  | inr plain ↦ rw (plain, load_lines) (load_lines-total rest codes small)
  | inl starred ↦
      rw (starred, load_lines)
        (code-Loads rest codes (load_lines-total rest) small (load_line line)
          (load_line-total line))
]

-- Loading a text never panics. If it succeeds, there are 8 bytes for each line that starts with a
-- star, and each fits in a u8.
pub load_text-total :
    (text : List ℕ)
    → (r : Loaded (List ℕ)) × (load_text text ≡ ok r) × IsLoaded (8 * count_codes (lines text)) r
unfolding load_text
load_text-total text =
    let n : 8 * count_codes (lines text) ≡ 0 + 8 * count_codes (lines text) = omega arith in
    rw n (load_lines-total (lines text) [] tt)
