-- ===== src/Wiird/Texts.antt =====
-- What the text of a codeset stands for, without the loops of src/wiird.rs: the bytes of its lines, or what
-- is wrong with the first line that has no code.
use brawllib_rs.Prelude.{
  ℕ, ◌+◌, ◌*◌, ◌≤◌, ◌<◌, ◌≡◌, ◌⊎◌, true, false, List, [], ◌∷◌, ◌++◌, length, All, ◌==◌,
  if◌then◌else◌,
}
use brawllib_rs.Wiird.Load.{LoadError, non_hex, more_than_16, less_than_16, starts_with}

-- The character is the hexadecimal digit, in upper or lower case.
abbrev pub IsDigit : (character digit : ℕ) → Type 0
IsDigit c d =
    (d < 10) × (c ≡ 0x30 + d)
    ⊎ (10 ≤ d) × (d < 16) × (c ≡ 0x37 + d)
    ⊎ (10 ≤ d) × (d < 16) × (c ≡ 0x57 + d)

-- The character is none.
abbrev pub IsOther : ℕ → Type 0
IsOther c = (c < 0x30) ⊎ (0x39 < c) × (c < 0x41) ⊎ (0x46 < c) × (c < 0x61) ⊎ (0x66 < c)

abbrev pub Any : (ℕ → Type 0) → List ℕ → Type 0
Any P [] = ⊥
Any P (c ∷ cs) = P c ⊎ Any P cs

abbrev pub AllDigits : List ℕ → Type 0
AllDigits = All (λ c. (d : ℕ) × IsDigit c d)

-- Two digits for each byte, the high one first.
pub data Hex : List ℕ → List ℕ → Type 0 where
  empty : Hex [] []
  byte :
      {c c' d d' : ℕ} {cs bytes : List ℕ}
      → IsDigit c d
      → IsDigit c' d'
      → Hex cs bytes
      → Hex (c ∷ c' ∷ cs) ((d * 16 + d') ∷ bytes)

-- The characters of a line but for stars and spaces.
abbrev pub kept : List ℕ → List ℕ
kept [] = []
kept (c ∷ cs) = if c == 0x2A then kept cs else if c == 0x20 then kept cs else c ∷ kept cs

abbrev pub IsCodeLine : List ℕ → Type 0
IsCodeLine line = starts_with 0x2A line ≡ true

-- A line with a star has the 16 digits of a code.
abbrev pub ReadsLine : List ℕ → List ℕ → Type 0
ReadsLine line bytes = Hex (kept line) bytes × (length bytes ≡ 8)

abbrev pub FailsLine : List ℕ → LoadError → Type 0
FailsLine line non_hex = Any IsOther (kept line)
FailsLine line more_than_16 = AllDigits (kept line) × (16 < length (kept line))
FailsLine line less_than_16 = AllDigits (kept line) × (length (kept line) < 16)
FailsLine line _ = ⊥

-- The bytes of the codes of a text.
pub data Reads : List (List ℕ) → List ℕ → Type 0 where
  ends : Reads [] []
  passes :
      {line : List ℕ} {lines : List (List ℕ)} {bytes : List ℕ}
      → starts_with 0x2A line ≡ false
      → Reads lines bytes
      → Reads (line ∷ lines) bytes
  reads :
      {line code : List ℕ} {lines : List (List ℕ)} {bytes : List ℕ}
      → IsCodeLine line
      → ReadsLine line code
      → Reads lines bytes
      → Reads (line ∷ lines) (code ++ bytes)

-- The error of the first line with a star that has no code.
pub data Fails : List (List ℕ) → LoadError → Type 0 where
  fails :
      {line : List ℕ} {lines : List (List ℕ)} {e : LoadError}
      → IsCodeLine line
      → FailsLine line e
      → Fails (line ∷ lines) e
  passes :
      {line : List ℕ} {lines : List (List ℕ)} {e : LoadError}
      → starts_with 0x2A line ≡ false
      → Fails lines e
      → Fails (line ∷ lines) e
  reads :
      {line code : List ℕ} {lines : List (List ℕ)} {e : LoadError}
      → IsCodeLine line
      → ReadsLine line code
      → Fails lines e
      → Fails (line ∷ lines) e
