-- ===== src/Wiird/Print.antt =====
-- The text that the loader of src/wiird.rs reads, printed from bytes, and read back.
use brawllib_rs.Prelude.{
  ℕ, ◌+◌, ◌*◌, ◌/◌, ◌%◌, ◌<◌, ◌≡◌, refl, ap, true, false, List, [], ◌∷◌, ◌++◌, some, length, All,
  ltb, if◌then◌else◌, ◌==◌, arith,
}
use brawllib_rs.Wiird.Load.{remove, to_digit, is_digit, any_non_hex}

-- The digit of a number below 16.
unfoldable pub print_digit : ℕ → ℕ
print_digit d = if ltb d 10 then 0x30 + d else 0x37 + d

unfoldable pub print_bytes : List ℕ → List ℕ
unfolding print_digit
print_bytes [] = []
print_bytes (b ∷ bs) = print_digit (b / 16) ∷ print_digit (b % 16) ∷ print_bytes bs

-- A star, the digits of the code with a space in their middle, and a line feed.
unfoldable pub print_code : List ℕ → List ℕ → List ℕ
unfolding print_bytes
print_code high low = 0x2A ∷ 0x20 ∷ print_bytes high ++ 0x20 ∷ print_bytes low

unfoldable pub print_codes : List (List ℕ × List ℕ) → List ℕ
unfolding print_code
print_codes [] = []
print_codes ((high, low) ∷ codes) = print_code high low ++ 0x0A ∷ print_codes codes

-- Characters that the loader keeps: digits, none of them a star, a space or the end of a line.
abbrev pub IsKept : ℕ → Type 0
IsKept c =
    (is_digit c ≡ true)
    × ((c == 0x2A) ≡ false)
    × ((c == 0x20) ≡ false)
    × ((c == 0x0A) ≡ false)
    × ((c == 0x0D) ≡ false)

pub to_digit-print_digit : (d : ℕ) → d < 16 → to_digit (print_digit d) ≡ some d
unfolding print_digit to_digit
to_digit-print_digit d h = ground arith

pub print_digit-IsKept : (d : ℕ) → d < 16 → IsKept (print_digit d)
unfolding print_digit is_digit
print_digit-IsKept d h = (
  rw (to_digit-print_digit d h, is_digit) refl,
  ground arith,
  ground arith,
  ground arith,
  ground arith,
)

pub print_bytes-IsKept : (bs : List ℕ) → All (λ b. b < 256) bs → All IsKept (print_bytes bs)
unfolding print_bytes
print_bytes-IsKept [] h = tt
print_bytes-IsKept (b ∷ bs) h = (
  print_digit-IsKept (b / 16) (omega (arith, h.0)),
  (print_digit-IsKept (b % 16) (omega arith), print_bytes-IsKept bs h.1),
)

pub length-print_bytes : (bs : List ℕ) → length (print_bytes bs) ≡ 2 * length bs
unfolding print_bytes
length-print_bytes [] = refl
length-print_bytes (b ∷ bs) = omega (arith, length-print_bytes bs)

pub any_non_hex-IsKept : (cs : List ℕ) → All IsKept cs → any_non_hex cs ≡ false
unfolding any_non_hex
any_non_hex-IsKept [] h = refl
any_non_hex-IsKept (c ∷ cs) h = rw (h.0.0) (any_non_hex-IsKept cs h.1)

-- Kept characters stay when stars and spaces are removed.
pub remove-IsKept :
    (c : ℕ) (cs more : List ℕ)
    → All (λ x. (x == c) ≡ false) cs
    → remove c (cs ++ more) ≡ cs ++ remove c more
unfolding remove
remove-IsKept c [] more h = refl
remove-IsKept c (x ∷ cs) more h = rw (h.0) (ap (λ r. x ∷ r) (remove-IsKept c cs more h.1))
