-- ===== src/WiirdRunner/Round.antt =====
-- One round of the loop of src/wiird_runner.rs: from the first byte of a line to its arm, and its address.
use brawllib_rs.Prelude.{
  ℕ, ◌+◌, ◌*◌, ◌/◌, ◌%◌, ◌^◌, ◌<◌, ◌≤◌, ◌≡◌, refl, inl, inr, true, not, ltb, leb, ◌==◌,
  if◌then◌else◌, arith, Bool-cases,
}
use brawllib_rs.Outcome.{ok, add_u32}
use brawllib_rs.Bytes.{Bytes, get, BigEndian}
use brawllib_rs.Bytes.Words.{word_at, u32_at_lem}
use brawllib_rs.Wiird.Code.{mask_code, classify, test_bit}
use brawllib_rs.WiirdRunner.State.{State, Line, last_or_true, target, high_bits}
use brawllib_rs.WiirdRunner.Step.{handle, step}

-- The bits of a code's number, without those of the pointer address and of the lowest bit.
abbrev pub IsNumber : (head number : ℕ) → Type 0
IsNumber head number = (head / 32 ≡ number / 32) × (head % 16 / 2 ≡ number % 16 / 2)

-- An address relative to the pointer address if bit 4 of the head is set, else to the high bits of the
-- base address.
abbrev pub place : (head address : ℕ) → State → ℕ
place head address s =
    if head / 16 % 2 == 1
    then s.pointer_address + address
    else s.base_address / 2 ^ 25 * 2 ^ 25 + address

pub target_lem :
    (head address : ℕ) (s : State)
    → place head address s < 2 ^ 32
    → target (not (test_bit head 4)) address s ≡ ok (place head address s)
unfolding target test_bit high_bits add_u32
target_lem head address s small = elim (Bool-cases (head / 16 % 2 == 1)) [
  | inl h ↦ rw h (ground (arith, small))
  | inr h ↦ rw h (ground (arith, small))
]

module _ (be : BigEndian) (codeset : Bytes) (location : ℕ) (s : State) where
  abbrev pub head : ℕ
  head = codeset.at s.offset

  -- The values that a round reads of every line.
  abbrev pub line_at : Line
  line_at = record {
    use_base_address = not (test_bit head 4);
    address = word_at codeset.at s.offset % 2 ^ 25;
    execute = last_or_true s.execution_stack;
  }

  -- A round is the arm of the number of its line.
  pub step-handle :
      (number : ℕ)
      → number % 2 ≡ 0
      → number / 16 % 2 ≡ 0
      → IsNumber head number
      → s.offset + 4 ≤ codeset.len
      → step be codeset location s ≡ handle be codeset location (classify number) line_at s
  unfolding step get mask_code
  step-handle number even low same room =
      let inside : ltb s.offset codeset.len ≡ true = ground arith in
      let fits : leb (s.offset + 4) codeset.len ≡ true = ground arith in
      let number_of : head / 32 * 32 + head % 16 / 2 * 2 ≡ number = omega (arith, same) in
      rw (inside, u32_at_lem be codeset s.offset, fits, number_of) refl
