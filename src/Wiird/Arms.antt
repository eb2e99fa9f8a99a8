-- ===== src/Wiird/Arms.antt =====
-- The arms of `match code` in `process_block` of src/wiird.rs, one function for each.
use brawllib_rs.Prelude.{ℕ, ◌+◌, ◌*◌, ◌%◌, ◌/◌, Bool, Option, none, some, if◌then◌else◌}
use brawllib_rs.Outcome.{Outcome, ok, ◌>>=◌}
use brawllib_rs.Wiird.Code.{test_bit, Comparison}
use brawllib_rs.Wiird.Operand.{AddAddress, add_address}
use brawllib_rs.Wiird.Block.{WiirdCode, IfTest}
use brawllib_rs.Wiird.Entry.{Reader, Entry, code, read_bytes}
use brawllib_rs.Wiird.Size.{aligned_size}

-- `match code { 0x20 => IfTest::IsEqual { .. }, ... }`
unfoldable pub if_test : Comparison → Bool → (address value lhs_mask rhs_value : ℕ) → IfTest
if_test Comparison.is_equal b a v l r = IfTest.is_equal b a v
if_test Comparison.is_not_equal b a v l r = IfTest.is_not_equal b a v
if_test Comparison.is_greater_than b a v l r = IfTest.is_greater_than b a v
if_test Comparison.is_less_than b a v l r = IfTest.is_less_than b a v
if_test Comparison.is_equal_mask b a v l r = IfTest.is_equal_mask b a l r
if_test Comparison.is_not_equal_mask b a v l r = IfTest.is_not_equal_mask b a l r
if_test Comparison.is_greater_than_mask b a v l r = IfTest.is_greater_than_mask b a l r
if_test Comparison.is_less_than_mask b a v l r = IfTest.is_less_than_mask b a l r

module _ (line : Reader) (use_base_address : Bool) (address : ℕ) where
  -- 00
  unfoldable pub write_and_fill8 : Outcome Entry
  write_and_fill8 = do
    value ← line.byte 7
    length ← line.half 4
    ok (code (WiirdCode.write_and_fill8 use_base_address address value (length + 1)) 8)

  -- 02
  unfoldable pub write_and_fill16 : Outcome Entry
  write_and_fill16 = do
    value ← line.half 6
    length ← line.half 4
    ok (code (WiirdCode.write_and_fill16 use_base_address address value (length + 1)) 8)

  -- 04
  unfoldable pub write_and_fill32 : Outcome Entry
  write_and_fill32 = do
    value ← line.word 4
    ok (code (WiirdCode.write_and_fill32 use_base_address address value) 8)

  -- 06
  unfoldable pub string_write : Outcome Entry
  string_write = do
    count ← line.word 4
    values ← read_bytes line count 8
    ok (code (WiirdCode.string_write use_base_address address values) (aligned_size count))

  -- 08
  unfoldable pub serial_write : Outcome Entry
  serial_write = do
    initial_value ← line.word 4
    value_size ← line.byte 8
    count ← line.half 8
    address_increment ← line.half 10
    value_increment ← line.word 12
    ok (
        code
          (WiirdCode.serial_write use_base_address address initial_value value_size
            (count % 0x1000 + 1) address_increment value_increment)
          16)

  -- 20 to 2E: the odd bit of the address is dropped.
  unfoldable pub if_statement : Comparison → Outcome Entry
  if_statement c = do
    value ← line.word 4
    lhs_mask ← line.half 4
    rhs_value ← line.half 6
    ok (Entry.if_statement (if_test c use_base_address (address / 2 * 2) value lhs_mask rhs_value))

  -- The code that inserts PowerPC instructions.
  unfoldable pub insert_ppc : Outcome Entry
  insert_ppc = do
    count ← line.word 4
    instruction_data ← read_bytes line (count * 8) 8
    ok (code (WiirdCode.insert_ppc use_base_address address instruction_data) (8 + count * 8))

-- What 40 to 4C read of their line.
pub record AddressOperands : Type 0 where
  pub add_result : Bool
  pub add : AddAddress
  pub gecko_register : Option ℕ
  pub value : ℕ

module _ (line : Reader) (use_base_address : Bool) where
  unfoldable pub address_operands : Outcome AddressOperands
  address_operands = do
    flags ← line.byte 1
    register_flags ← line.byte 2
    register ← line.byte 3
    value ← line.word 4
    ok (record {
      add_result = test_bit flags 4;
      add = add_address (test_bit flags 0) use_base_address;
      gecko_register = if test_bit register_flags 4 then some (register % 16) else none;
      value = value;
    })

  -- 40
  unfoldable pub load_base_address : Outcome Entry
  load_base_address = do
    o ← address_operands
    ok (code (WiirdCode.load_base_address o.add_result o.add o.gecko_register o.value) 8)

  -- 42
  unfoldable pub set_base_address : Outcome Entry
  set_base_address = do
    o ← address_operands
    ok (code (WiirdCode.set_base_address o.add_result o.add o.gecko_register o.value) 8)

  -- 44
  unfoldable pub store_base_address : Outcome Entry
  store_base_address = do
    o ← address_operands
    ok (code (WiirdCode.store_base_address o.add o.gecko_register o.value) 8)

  -- 48
  unfoldable pub load_pointer_address : Outcome Entry
  load_pointer_address = do
    o ← address_operands
    ok (code (WiirdCode.load_pointer_address o.add_result o.add o.gecko_register o.value) 8)

  -- 4A
  unfoldable pub set_pointer_address : Outcome Entry
  set_pointer_address = do
    o ← address_operands
    ok (code (WiirdCode.set_pointer_address o.add_result o.add o.gecko_register o.value) 8)

  -- 4C
  unfoldable pub store_pointer_address : Outcome Entry
  store_pointer_address = do
    o ← address_operands
    ok (code (WiirdCode.store_pointer_address o.add o.gecko_register o.value) 8)

  -- 80
  unfoldable pub set_gecko_register : Outcome Entry
  set_gecko_register = do
    flags ← line.byte 1
    register ← line.byte 3
    value ← line.word 4
    ok (
        code
          (WiirdCode.set_gecko_register (test_bit flags 4)
            (add_address (test_bit flags 0) use_base_address) (register % 16) value)
          8)
