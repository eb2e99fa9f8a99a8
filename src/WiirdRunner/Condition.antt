-- ===== src/WiirdRunner/Condition.antt =====
-- Codes 20 to 2E, E0 and E2 of src/wiird_runner.rs: tests push a flag on the execution stack,
-- terminators pop flags and may reset the high halves of the two addresses.
use brawllib_rs.Prelude.{
  ℕ, zero, suc, ◌+◌, ◌*◌, ◌/◌, ◌%◌, ◌^◌, Bool, false, not, List, [], ◌∷◌, ltb, ◌==◌, if◌then◌else◌,
}
use brawllib_rs.Outcome.{Outcome, ok, ◌>>=◌}
use brawllib_rs.Bytes.{Bytes, get, BigEndian, u16_at, u32_at}
use brawllib_rs.WiiMemory.{WiiMemory, read_u32}
use brawllib_rs.Wiird.Code.{
  test_bit, Comparison, is_equal, is_not_equal, is_greater_than, is_less_than,
}
use brawllib_rs.WiirdRunner.State.{State, Line, Control, last_or_true, pop, advance, target}

-- The inner `match code`. The four masked comparisons push false.
unfoldable pub compare_memory : BigEndian → Comparison → (value : ℕ) → WiiMemory → ℕ → Outcome Bool
compare_memory be is_equal value memory a = do v ← read_u32 be memory a; ok (value == v)
compare_memory be is_not_equal value memory a = do v ← read_u32 be memory a; ok (not (value == v))
compare_memory be is_greater_than value memory a = do v ← read_u32 be memory a; ok (ltb value v)
compare_memory be is_less_than value memory a = do v ← read_u32 be memory a; ok (ltb v value)
compare_memory be _ value memory a = ok false

-- `for _ in 0..count { execution_stack.pop(); }`
unfoldable pub pop_many : ℕ → List Bool → List Bool
pop_many zero stack = stack
pop_many (suc n) stack = pop_many n (pop stack)

-- `if reset != 0 { address = (reset as u32) << 16 }`
unfoldable pub reset_high : ℕ → ℕ → ℕ
reset_high reset address = if reset == 0 then address else reset * 2 ^ 16

module _ (be : BigEndian) (codeset : Bytes) (line : Line) (s : State) where
  unfoldable pub if_statement : Comparison → Outcome Control
  if_statement comparison = do
    value ← u32_at be codeset (s.offset + 4)
    _ ← u16_at be codeset (s.offset + 4)
    _ ← u16_at be codeset (s.offset + 6)
    let insert_endif = line.address % 2 == 1
    let address = line.address / 2 * 2
    let stack = if insert_endif then pop s.execution_stack else s.execution_stack
    mem_address ← target line.use_base_address address s
    flag ←
        if line.execute
        then compare_memory be comparison value s.memory mem_address
        else ok (last_or_true stack)
    advance 8 (record s { execution_stack = flag ∷ stack })

  -- E0
  unfoldable pub reset_address_high : Outcome Control
  reset_address_high = do
    reset_base ← u16_at be codeset (s.offset + 4)
    reset_pointer ← u16_at be codeset (s.offset + 6)
    advance 8 (record s {
      base_address = reset_high reset_base s.base_address;
      pointer_address = reset_high reset_pointer s.pointer_address;
      execution_stack = [];
    })

  -- E2
  unfoldable pub endif : Outcome Control
  endif = do
    flags ← get codeset (s.offset + 1)
    count ← get codeset (s.offset + 3)
    reset_base ← u16_at be codeset (s.offset + 4)
    reset_pointer ← u16_at be codeset (s.offset + 6)
    let stack = pop_many count s.execution_stack
    advance 8 (record s {
      base_address = reset_high reset_base s.base_address;
      pointer_address = reset_high reset_pointer s.pointer_address;
      execution_stack = if test_bit flags 4 then not (last_or_true stack) ∷ stack else stack;
    })
