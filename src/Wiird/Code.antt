-- ===== src/Wiird/Code.antt =====
-- The first byte of a WiiRD line: the bit tests on it, and the arms of `match code` in
-- src/wiird.rs and src/wiird_runner.rs. A mask of a byte is written by division and remainder.
use brawllib_rs.Prelude.{ℕ, ◌+◌, ◌*◌, ◌/◌, ◌%◌, ◌^◌, Bool, ◌==◌, if◌then◌else◌}

-- `b & (1 << k) != 0`
unfoldable pub test_bit : ℕ → ℕ → Bool
test_bit b k = b / 2 ^ k % 2 == 1

-- `b & 0b11101110`
unfoldable pub mask_code : ℕ → ℕ
mask_code b = b / 32 * 32 + b % 16 / 2 * 2

pub data Comparison : Type 0 where
  is_equal is_not_equal is_greater_than is_less_than : Comparison
  is_equal_mask is_not_equal_mask is_greater_than_mask is_less_than_mask : Comparison

pub data Code : Type 0 where
  write_and_fill8 write_and_fill16 write_and_fill32 string_write serial_write : Code
  if_statement : Comparison → Code
  load_base_address set_base_address store_base_address base_address_to_code : Code
  load_pointer_address set_pointer_address store_pointer_address pointer_address_to_code : Code
  set_repeat execute_repeat return goto subroutine : Code
  set_gecko_register load_gecko_register store_gecko_register : Code
  operation_direct_value operation_register memory_copy1 memory_copy2 : Code
  execute_ppc insert_ppc reset_address_high endif end_of_codes unknown : Code

-- `match code { 0x00 => ..., ... }`, in two halves.
classify_high : ℕ → Code
classify_high code =
    if code == 0x60
    then set_repeat
    else if code == 0x62
    then execute_repeat
    else if code == 0x64
    then return
    else if code == 0x66
    then goto
    else if code == 0x68
    then subroutine
    else if code == 0x80
    then set_gecko_register
    else if code == 0x82
    then load_gecko_register
    else if code == 0x84
    then store_gecko_register
    else if code == 0x86
    then operation_direct_value
    else if code == 0x88
    then operation_register
    else if code == 0x8A
    then memory_copy1
    else if code == 0x8C
    then memory_copy2
    else if code == 0xC0
    then execute_ppc
    else if code == 0xC2
    then insert_ppc
    else if code == 0xE0
    then reset_address_high
    else if code == 0xE2
    then endif
    else if code == 0xF0
    then end_of_codes
    else unknown

unfoldable pub classify : ℕ → Code
unfolding classify_high
classify code =
    if code == 0x00
    then write_and_fill8
    else if code == 0x02
    then write_and_fill16
    else if code == 0x04
    then write_and_fill32
    else if code == 0x06
    then string_write
    else if code == 0x08
    then serial_write
    else if code == 0x20
    then if_statement is_equal
    else if code == 0x22
    then if_statement is_not_equal
    else if code == 0x24
    then if_statement is_greater_than
    else if code == 0x26
    then if_statement is_less_than
    else if code == 0x28
    then if_statement is_equal_mask
    else if code == 0x2A
    then if_statement is_not_equal_mask
    else if code == 0x2C
    then if_statement is_greater_than_mask
    else if code == 0x2E
    then if_statement is_less_than_mask
    else if code == 0x40
    then load_base_address
    else if code == 0x42
    then set_base_address
    else if code == 0x44
    then store_base_address
    else if code == 0x46
    then base_address_to_code
    else if code == 0x48
    then load_pointer_address
    else if code == 0x4A
    then set_pointer_address
    else if code == 0x4C
    then store_pointer_address
    else if code == 0x4E
    then pointer_address_to_code
    else classify_high code
