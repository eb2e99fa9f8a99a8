-- ===== src/Wiird/OperandLaws.antt =====
-- Codes 86 and 88 of src/wiird.rs by the bytes of their line.
use brawllib_rs.Prelude.{
  ℕ, ◌+◌, ◌*◌, ◌/◌, ◌%◌, ◌^◌, ◌≤◌, ◌≡◌, refl, Bool, true, false, not, ltb, leb, ◌==◌, if◌then◌else◌,
  arith,
}
use brawllib_rs.Outcome.{ok}
use brawllib_rs.Bytes.{Bytes, BigEndian, get}
use brawllib_rs.Bytes.Words.{word_at, u32_at_lem}
use brawllib_rs.Wiird.Code.{classify, mask_code, test_bit}
use brawllib_rs.Wiird.Operand.{GeckoOperation, gecko_operation, high_nibble}
use brawllib_rs.Wiird.Block.{WiirdCode}
use brawllib_rs.Wiird.Entry.{reader, code}
use brawllib_rs.Wiird.OtherArms.{operation_gecko_register_direct_value, operation_gecko_register}
use brawllib_rs.Wiird.Parse.{read_code, read_line}

-- The operation that is read from the flags of a line: the high bits stay in place, so that all but 0 are
-- unknown.
abbrev pub operation_of : ℕ → GeckoOperation
operation_of flags =
    if ltb flags 16 then GeckoOperation.add else GeckoOperation.unknown (flags / 16 * 16)

gecko_operation-high_nibble : (b : ℕ) → gecko_operation (high_nibble b) ≡ operation_of b
unfolding gecko_operation high_nibble
gecko_operation-high_nibble b = ground arith

module _ (bytes : Bytes) (k : ℕ) where
  -- The code of a line at `k`, an operation on a register with a value or with another register.
  abbrev pub operation_at : (direct : Bool) → WiirdCode
  operation_at true =
      WiirdCode.operation_gecko_register_direct_value (operation_of (bytes.at (k + 1)))
        (bytes.at (k + 1) % 2 == 1) (bytes.at (k + 1) / 2 % 2 == 1) (bytes.at (k + 3) % 16)
        (word_at bytes.at (k + 4))
  operation_at false =
      WiirdCode.operation_gecko_register (operation_of (bytes.at (k + 1)))
        (bytes.at (k + 1) % 2 == 1) (bytes.at (k + 1) / 2 % 2 == 1) (bytes.at (k + 3) % 16)
        (bytes.at (k + 7) % 16)

  arm_lem :
      (be : BigEndian) (direct b : Bool) (a : ℕ)
      → k + 8 ≤ bytes.len
      → read_code (classify (if direct then 0x86 else 0x88)) (reader be bytes k) b a
        ≡ ok (code (operation_at direct) 8)
  unfolding read_code classify reader get test_bit operation_gecko_register_direct_value
      operation_gecko_register
  arm_lem be true b a fits =
      let first : ltb (k + 1) bytes.len ≡ true = ground arith in
      let third : ltb (k + 3) bytes.len ≡ true = ground arith in
      let word_fits : leb (k + 4 + 4) bytes.len ≡ true = ground arith in
      let whole : bytes.at (k + 1) / 1 ≡ bytes.at (k + 1) = omega arith in
      rw
        (
          first,
          third,
          u32_at_lem be bytes (k + 4),
          word_fits,
          gecko_operation-high_nibble (bytes.at (k + 1)),
          whole,
        )
        refl
  arm_lem be false b a fits =
      let first : ltb (k + 1) bytes.len ≡ true = ground arith in
      let third : ltb (k + 3) bytes.len ≡ true = ground arith in
      let seventh : ltb (k + 7) bytes.len ≡ true = ground arith in
      let whole : bytes.at (k + 1) / 1 ≡ bytes.at (k + 1) = omega arith in
      rw (first, third, seventh, gecko_operation-high_nibble (bytes.at (k + 1)), whole) refl

  -- The parser reads a line whose first byte is 86 or 88, but for its bits 0 and 4, as an operation on
  -- registers, with its two load flags, its register and its value or second register in place. Whatever
  -- its four high bits of flags, unless they are 0, the operation is unknown, so that none but `add` is
  -- ever recognised.
  pub read_line-operation :
      (be : BigEndian) (direct : Bool)
      → bytes.at k / 32 ≡ 4
      → bytes.at k % 16 / 2 ≡ (if direct then 3 else 4)
      → k + 8 ≤ bytes.len
      → read_line (reader be bytes k) ≡ ok (code (operation_at direct) 8)
  unfolding read_line reader get mask_code
  read_line-operation be direct high low fits =
      let zeroth : k + 0 ≡ k = omega arith in
      let inside : ltb k bytes.len ≡ true = ground arith in
      let word_fits : leb (k + 4) bytes.len ≡ true = ground arith in
      let number : bytes.at k / 32 * 32 + bytes.at k % 16 / 2 * 2
          ≡ (if direct then 0x86 else 0x88) =
        ground arith in
      rw (zeroth, inside, u32_at_lem be bytes k, word_fits, number)
        (arm_lem be direct (not (test_bit (bytes.at k) 4)) (word_at bytes.at k % 2 ^ 25) fits)
