-- ===== src/WiirdRunner/Address.antt =====
-- Codes 40 to 4E of src/wiird_runner.rs: load, set and store the base and the pointer address.
use brawllib_rs.Prelude.{ℕ, ◌+◌, ◌%◌, Bool, Option, none, some, if◌then◌else◌}
use brawllib_rs.Outcome.{Outcome, ok, ◌>>=◌, add_u32, index}
use brawllib_rs.Bytes.{Bytes, get, BigEndian, u16_at, u32_at}
use brawllib_rs.WiiMemory.{read_u32, write_u32}
use brawllib_rs.Wiird.Code.{test_bit}
use brawllib_rs.Wiird.Operand.{AddAddress, base_address, pointer_address, no_address, add_address}
use brawllib_rs.WiirdRunner.State.{State, Line, Control, when, advance}

-- What each of these codes reads of its line; 44 and 4C have no `add_result`.
pub record Operands : Type 0 where
  pub add_result : Bool
  pub add : AddAddress
  pub add_gecko_register : Option ℕ
  pub value : ℕ

-- `match add { AddAddress::BaseAddress => value += base_address, ... }`
unfoldable pub add_to : AddAddress → State → ℕ → Outcome ℕ
add_to base_address s value = add_u32 value s.base_address
add_to pointer_address s value = add_u32 value s.pointer_address
add_to no_address s value = ok value

-- `if let Some(gecko_register) = ... { value += gecko_registers[gecko_register as usize]; }`
unfoldable pub add_register : Option ℕ → State → ℕ → Outcome ℕ
add_register none s value = ok value
add_register (some r) s value = do v ← index s.gecko_registers r; add_u32 value v

-- The address or value that the operands stand for.
unfoldable pub resolve : Operands → State → Outcome ℕ
unfolding add_to add_register
resolve o s = do value ← add_to o.add s o.value; add_register o.add_gecko_register s value

-- `if add_result { old += v } else { old = v }`
unfoldable pub accumulate : Bool → (old v : ℕ) → Outcome ℕ
accumulate add_result old v = if add_result then add_u32 old v else ok v

module _ (be : BigEndian) where
  unfoldable pub operands : Bytes → Line → State → Outcome Operands
  operands codeset line s = do
    flags ← get codeset (s.offset + 1)
    register_flags ← get codeset (s.offset + 2)
    register ← get codeset (s.offset + 3)
    value ← u32_at be codeset (s.offset + 4)
    ok (record {
      add_result = test_bit flags 4;
      add = add_address (test_bit flags 0) line.use_base_address;
      add_gecko_register = if test_bit register_flags 4 then some (register % 16) else none;
      value = value;
    })

  unfoldable pub load_base : Operands → State → Outcome State
  load_base o s = do
    actual_address ← resolve o s
    v ← read_u32 be s.memory actual_address
    base ← accumulate o.add_result s.base_address v
    ok (record s { base_address = base })

  unfoldable pub load_pointer : Operands → State → Outcome State
  load_pointer o s = do
    actual_address ← resolve o s
    v ← read_u32 be s.memory actual_address
    pointer ← accumulate o.add_result s.pointer_address v
    ok (record s { pointer_address = pointer })

  unfoldable pub store_base : Operands → State → Outcome State
  store_base o s = do
    actual_address ← resolve o s
    memory ← write_u32 be s.memory actual_address s.base_address
    ok (record s { memory = memory })

  unfoldable pub store_pointer : Operands → State → Outcome State
  store_pointer o s = do
    actual_address ← resolve o s
    memory ← write_u32 be s.memory actual_address s.pointer_address
    ok (record s { memory = memory })

unfoldable pub set_base : Operands → State → Outcome State
set_base o s = do
  value ← resolve o s
  base ← accumulate o.add_result s.base_address value
  ok (record s { base_address = base })

unfoldable pub set_pointer : Operands → State → Outcome State
set_pointer o s = do
  value ← resolve o s
  pointer ← accumulate o.add_result s.pointer_address value
  ok (record s { pointer_address = pointer })

module _ (be : BigEndian) (codeset : Bytes) (line : Line) (s : State) where
  -- 40, 42, 44, 48, 4A and 4C: read the operands, then act if executing.
  unfoldable pub with_operands : (Operands → State → Outcome State) → Outcome Control
  with_operands act = do
    o ← operands be codeset line s
    s' ← when line.execute (act o) s
    advance 8 s'

  -- 46
  unfoldable pub base_address_to_code : Outcome Control
  base_address_to_code = do
    _ ← u16_at be codeset (s.offset + 2)
    s' ← when line.execute (λ s. ok (record s { base_address = 0 })) s
    advance 8 s'

  -- 4E
  unfoldable pub pointer_address_to_code : Outcome Control
  pointer_address_to_code = do
    _ ← u16_at be codeset (s.offset + 2)
    s' ← when line.execute (λ s. ok (record s { pointer_address = 0 })) s
    advance 8 s'
