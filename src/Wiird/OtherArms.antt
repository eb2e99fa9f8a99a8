-- ===== src/Wiird/OtherArms.antt =====
-- More arms of `match code` in `process_block` of src/wiird.rs: those of the control flow, of the
-- registers, of copies and of the terminators.
use brawllib_rs.Prelude.{ℕ, ◌+◌, ◌*◌, ◌%◌, Bool, none, some, if◌then◌else◌, ◌==◌}
use brawllib_rs.Outcome.{Outcome, ok, ◌>>=◌}
use brawllib_rs.Wiird.Code.{test_bit}
use brawllib_rs.Wiird.Operand.{JumpFlag, always, jump_flag, gecko_operation, high_nibble}
use brawllib_rs.Wiird.Block.{WiirdCode}
use brawllib_rs.Wiird.Entry.{Reader, Entry, code, skip, failure, read_bytes}
use brawllib_rs.Wiird.Size.{lines_size}

module _ (line : Reader) where
  -- 46
  unfoldable pub set_base_address_to_code_location : Outcome Entry
  set_base_address_to_code_location = do
    address_offset ← line.half 2
    ok (code (WiirdCode.set_base_address_to_code_location address_offset) 8)

  -- 4E
  unfoldable pub set_pointer_address_to_code_location : Outcome Entry
  set_pointer_address_to_code_location = do
    address_offset ← line.half 2
    ok (code (WiirdCode.set_pointer_address_to_code_location address_offset) 8)

  -- 60
  unfoldable pub set_repeat : Outcome Entry
  set_repeat = do
    count ← line.half 2
    block_id ← line.byte 7
    ok (code (WiirdCode.set_repeat count block_id) 8)

  -- 62
  unfoldable pub execute_repeat : Outcome Entry
  execute_repeat = do block_id ← line.byte 7; ok (code (WiirdCode.execute_repeat (block_id % 16)) 8)

  -- 64
  unfoldable pub return : Outcome Entry
  return = do
    b ← line.byte 1
    elim (jump_flag b) [
      | none ↦ ok failure
      | some flag ↦ do block_id ← line.byte 7; ok (code (WiirdCode.return flag (block_id % 16)) 8)
    ]

  -- 66: the lines that an unconditional jump passes over are not read.
  unfoldable pub goto_lines : JumpFlag → (offset_lines : ℕ) → Outcome Entry
  goto_lines always offset_lines = do size ← lines_size offset_lines; ok (skip (8 + size))
  goto_lines flag offset_lines = ok (code (WiirdCode.goto flag offset_lines) 8)

  unfoldable pub goto : Outcome Entry
  unfolding goto_lines
  goto = do
    b ← line.byte 1
    elim (jump_flag b) [ none ↦ ok failure | some flag ↦ line.half 2 >>= goto_lines flag ]

  -- 68
  unfoldable pub subroutine : Outcome Entry
  subroutine = do
    b ← line.byte 1
    elim (jump_flag b) [
      | none ↦ ok failure
      | some flag ↦ do
        offset_lines ← line.half 2
        block_id ← line.byte 7
        ok (code (WiirdCode.subroutine flag offset_lines (block_id % 16)) 8)
    ]

  -- 82
  unfoldable pub load_gecko_register : Outcome Entry
  load_gecko_register = do
    register ← line.byte 3
    mem_address ← line.word 4
    ok (code (WiirdCode.load_gecko_register (register % 16) mem_address) 8)

  -- 84
  unfoldable pub store_gecko_register : Outcome Entry
  store_gecko_register = do
    register ← line.byte 3
    mem_address ← line.word 4
    ok (code (WiirdCode.store_gecko_register (register % 16) mem_address) 8)

  -- 86
  unfoldable pub operation_gecko_register_direct_value : Outcome Entry
  operation_gecko_register_direct_value = do
    flags ← line.byte 1
    register ← line.byte 3
    value ← line.word 4
    ok (
        code
          (WiirdCode.operation_gecko_register_direct_value (gecko_operation (high_nibble flags))
            (test_bit flags 0) (test_bit flags 1) (register % 16) value)
          8)

  -- 88
  unfoldable pub operation_gecko_register : Outcome Entry
  operation_gecko_register = do
    flags ← line.byte 1
    register1 ← line.byte 3
    register2 ← line.byte 7
    ok (
        code
          (WiirdCode.operation_gecko_register (gecko_operation (high_nibble flags))
            (test_bit flags 0) (test_bit flags 1) (register1 % 16) (register2 % 16))
          8)

  -- 8A
  unfoldable pub memory_copy1 : Bool → Outcome Entry
  memory_copy1 use_base_address = do
    count ← line.half 1
    registers ← line.byte 3
    dest_offset ← line.word 4
    let dest_register = registers % 16 in
        ok (
          code
            (WiirdCode.memory_copy1 use_base_address count (high_nibble registers)
              (if dest_register == 0x0F then none else some dest_register) dest_offset)
            8)

  -- 8C
  unfoldable pub memory_copy2 : Bool → Outcome Entry
  memory_copy2 use_base_address = do
    count ← line.half 1
    registers ← line.byte 3
    source_offset ← line.word 4
    let source_register = high_nibble registers in
        ok (
          code
            (WiirdCode.memory_copy2 use_base_address count
              (if source_register == 0x0F then none else some source_register) (registers % 16)
              source_offset)
            8)

  -- The code that runs PowerPC instructions.
  unfoldable pub execute_ppc : Outcome Entry
  execute_ppc = do
    count ← line.word 4
    instruction_data ← read_bytes line (count * 8) 8
    ok (code (WiirdCode.execute_ppc instruction_data) (8 + count * 8))

  -- E0
  unfoldable pub reset_address_high : Outcome Entry
  reset_address_high = do
    reset_base_address_high ← line.half 4
    reset_pointer_address_high ← line.half 6
    ok (Entry.reset_address_high reset_base_address_high reset_pointer_address_high)

  -- E2
  unfoldable pub endif : Outcome Entry
  endif = do
    flags ← line.byte 1
    count ← line.byte 3
    reset_base_address_high ← line.half 4
    reset_pointer_address_high ← line.half 6
    ok (Entry.endif (test_bit flags 4) count reset_base_address_high reset_pointer_address_high)
