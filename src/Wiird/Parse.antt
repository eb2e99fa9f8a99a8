-- ===== src/Wiird/Parse.antt =====
-- `process_block` and `wiird_codes` of src/wiird.rs: the loop over the lines of a block, with a
-- recursive call for the block of every test.
use brawllib_rs.Prelude.{
  ℕ, zero, suc, ◌+◌, ◌%◌, ◌^◌, Bool, true, false, not, Option, none, some, ltb, ◌==◌, ◌&&◌,
  if◌then◌else◌,
}
use brawllib_rs.Outcome.{Outcome, ok, panic, ◌>>=◌}
use brawllib_rs.Bytes.{Bytes, BigEndian, slice_from}
use brawllib_rs.Wiird.Code.{Code, classify, mask_code, test_bit}
use brawllib_rs.Wiird.Block.{
  IfTest, WiirdCode, WiirdBlock, empty, no_else, push, EndIfCount, infinite, finite, ProcessedBlock,
  finished, end_if,
}
use brawllib_rs.Wiird.Entry.{Entry, Reader, reader, code, skip, failure}
use brawllib_rs.Wiird.Arms
use brawllib_rs.Wiird.OtherArms

-- `match code`. The arm of 0xF0 does nothing.
unfoldable pub read_code : Code → Reader → (use_base_address : Bool) (address : ℕ) → Outcome Entry
read_code Code.write_and_fill8 line b a = Arms.write_and_fill8 line b a
read_code Code.write_and_fill16 line b a = Arms.write_and_fill16 line b a
read_code Code.write_and_fill32 line b a = Arms.write_and_fill32 line b a
read_code Code.string_write line b a = Arms.string_write line b a
read_code Code.serial_write line b a = Arms.serial_write line b a
read_code (Code.if_statement c) line b a = Arms.if_statement line b a c
read_code Code.load_base_address line b a = Arms.load_base_address line b
read_code Code.set_base_address line b a = Arms.set_base_address line b
read_code Code.store_base_address line b a = Arms.store_base_address line b
read_code Code.base_address_to_code line b a = OtherArms.set_base_address_to_code_location line
read_code Code.load_pointer_address line b a = Arms.load_pointer_address line b
read_code Code.set_pointer_address line b a = Arms.set_pointer_address line b
read_code Code.store_pointer_address line b a = Arms.store_pointer_address line b
read_code Code.pointer_address_to_code line b a =
    OtherArms.set_pointer_address_to_code_location line
read_code Code.set_repeat line b a = OtherArms.set_repeat line
read_code Code.execute_repeat line b a = OtherArms.execute_repeat line
read_code Code.return line b a = OtherArms.return line
read_code Code.goto line b a = OtherArms.goto line
read_code Code.subroutine line b a = OtherArms.subroutine line
read_code Code.set_gecko_register line b a = Arms.set_gecko_register line b
read_code Code.load_gecko_register line b a = OtherArms.load_gecko_register line
read_code Code.store_gecko_register line b a = OtherArms.store_gecko_register line
read_code Code.operation_direct_value line b a =
    OtherArms.operation_gecko_register_direct_value line
read_code Code.operation_register line b a = OtherArms.operation_gecko_register line
read_code Code.memory_copy1 line b a = OtherArms.memory_copy1 line b
read_code Code.memory_copy2 line b a = OtherArms.memory_copy2 line b
read_code Code.execute_ppc line b a = OtherArms.execute_ppc line
read_code Code.insert_ppc line b a = Arms.insert_ppc line b a
read_code Code.reset_address_high line b a = OtherArms.reset_address_high line
read_code Code.endif line b a = OtherArms.endif line
read_code Code.end_of_codes line b a = ok (skip 0)
read_code Code.unknown line b a = ok failure

-- The start of the loop's body, up to the end of the match.
unfoldable pub read_line : Reader → Outcome Entry
unfolding read_code
read_line line = do
  head ← line.byte 0
  word ← line.word 0
  read_code (classify (mask_code head)) line (not (test_bit head 4)) (word % 2 ^ 25)

-- How the loop's body is left: to the next round, with the offset and the codes, or by `return`.
pub data Exit : Type 0 where
  go : (offset : ℕ) → WiirdBlock → Exit
  leave : ProcessedBlock → Exit

-- Before that, a test reads its block.
pub data Round : Type 0 where
  exit : Exit → Round
  nest : IfTest → Bytes → Round

-- The arms' ends, `offset` and `codes` being the loop's variables.
module _ (bytes : Bytes) (is_nested : Bool) (offset : ℕ) (codes : WiirdBlock) where
  unfoldable pub end_line : Entry → Outcome Round
  end_line (code c n) = ok (exit (go (offset + n) (push codes c)))
  end_line (skip n) = ok (exit (go (offset + n) codes))
  end_line (Entry.if_statement t) = do part ← slice_from bytes (offset + 8); ok (nest t part)
  end_line (Entry.reset_address_high base pointer) = ok (
      exit (
        if is_nested
        then leave (end_if infinite codes (offset + 8) base pointer)
        else go (offset + 8) (push codes (WiirdCode.reset_address_high base pointer))))
  end_line (Entry.endif else_branch count base pointer) =
      let codes' =
        if else_branch then push codes (WiirdCode.else_code count base pointer) else codes in
      ok (
        exit (
          if is_nested
          then (if count == 0
              then go (offset + 8) codes'
              else leave (end_if (finite count) codes' (offset + 8) base pointer))
          else go (offset + 8) (push codes' (WiirdCode.reset_address_high base pointer))))
  end_line failure = ok (exit (leave (finished codes)))

-- `x - 1` on the u8 of a count: it panics on 0.
unfoldable pub decrement : EndIfCount → Outcome EndIfCount
decrement infinite = ok infinite
decrement (finite zero) = panic
decrement (finite (suc n)) = ok (finite n)

-- `multi_endif`
unfoldable pub more_endif : EndIfCount → Bool
more_endif infinite = true
more_endif (finite n) = ltb 0 n

-- The end of a test's arm, with what its block was read as. `offset` lies after the test's line.
unfoldable pub end_test :
    (is_nested : Bool) (offset : ℕ) → WiirdBlock → IfTest → ProcessedBlock → Outcome Exit
unfolding decrement more_endif
end_test is_nested offset codes t (finished _) = ok (leave (finished empty))
end_test is_nested offset codes t (end_if count then_branch bytes_processed base pointer) = do
  count' ← decrement count
  let codes' = push codes (WiirdCode.if_statement t then_branch no_else base pointer) in
      ok (
        if more_endif count' && is_nested
        then leave (end_if count' codes' (offset + bytes_processed) base pointer)
        else go (offset + bytes_processed)
            (push codes' (WiirdCode.reset_address_high base pointer)))

module _ (be : BigEndian) where
  -- The loop's body, up to the recursive call.
  unfoldable pub round : Bytes → Bool → (offset : ℕ) → WiirdBlock → Outcome Round
  round bytes is_nested offset codes = do
    e ← read_line (reader be bytes offset)
    end_line bytes is_nested offset codes e

  -- `while offset < data.len()`, with fuel; `none` means that the fuel ran out.
  unfoldable pub process_lines :
      ℕ → Bytes → (is_nested : Bool) (offset : ℕ) → WiirdBlock → Option (Outcome ProcessedBlock)
  process_lines zero bytes is_nested offset codes = none
  process_lines (suc fuel) bytes is_nested offset codes = elim (ltb offset bytes.len) [
    | false ↦ some (ok (finished codes))
    | true ↦ elim (round bytes is_nested offset codes) [
      | panic ↦ some panic
      | ok (exit (leave r)) ↦ some (ok r)
      | ok (exit (go offset' codes')) ↦ process_lines fuel bytes is_nested offset' codes'
      | ok (nest t part) ↦ elim (process_lines fuel part true 0 empty) [
        | none ↦ none
        | some panic ↦ some panic
        | some (ok inner) ↦ elim (end_test is_nested (offset + 8) codes t inner) [
          | panic ↦ some panic
          | ok (leave r) ↦ some (ok r)
          | ok (go offset' codes') ↦ process_lines fuel bytes is_nested offset' codes'
        ]
      ]
    ]
  ]

  -- Every round, nested or not, is at a later byte: a round for each byte and one more is enough.
  unfoldable pub process_block : Bytes → Bool → Option (Outcome ProcessedBlock)
  process_block bytes is_nested = process_lines (bytes.len + 1) bytes is_nested 0 empty

  unfoldable pub wiird_codes : Bytes → Option (Outcome WiirdBlock)
  wiird_codes bytes = elim (process_block bytes false) [
    | none ↦ none
    | some panic ↦ some panic
    | some (ok (finished block)) ↦ some (ok block)
    | some (ok (end_if _ _ _ _ _)) ↦ some (ok empty)
  ]
