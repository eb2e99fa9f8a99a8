-- ===== src/WiirdRunner/Register.antt =====
-- Gecko registers, copies and PowerPC code in src/wiird_runner.rs: of 80 to 8C and the two of
-- PowerPC code, only 80 has an effect; the others read their operands and go on.
use brawllib_rs.Prelude.{ℕ, ◌+◌, ◌*◌, ◌%◌, Bool, set}
use brawllib_rs.Outcome.{Outcome, ok, ◌>>=◌, ◌>>◌, index}
use brawllib_rs.Bytes.{Bytes, get, BigEndian, u16_at, u32_at}
use brawllib_rs.Wiird.Code.{test_bit}
use brawllib_rs.Wiird.Operand.{AddAddress, add_address}
use brawllib_rs.WiirdRunner.State.{State, Line, Control, when, advance}
use brawllib_rs.WiirdRunner.Fill.{read_values}
use brawllib_rs.WiirdRunner.Address.{add_to, accumulate}

-- `gecko_registers[register] += v` or `= v`
unfoldable pub set_register : Bool → AddAddress → (register new_value : ℕ) → State → Outcome State
set_register add_result add register new_value s = do
  v ← add_to add s new_value
  old ← index s.gecko_registers register
  w ← accumulate add_result old v
  ok (record s { gecko_registers = set s.gecko_registers register w })

module _ (be : BigEndian) (codeset : Bytes) (line : Line) (s : State) where
  -- 80
  unfoldable pub set_gecko_register : Outcome Control
  set_gecko_register = do
    flags ← get codeset (s.offset + 1)
    register ← get codeset (s.offset + 3)
    new_value ← u32_at be codeset (s.offset + 4)
    s' ←
        when line.execute
          (set_register (test_bit flags 4) (add_address (test_bit flags 0) line.use_base_address)
            (register % 16) new_value)
          s
    advance 8 s'

  -- 82 and 84
  unfoldable pub move_gecko_register : Outcome Control
  move_gecko_register =
      get codeset (s.offset + 3) >> u32_at be codeset (s.offset + 4) >> advance 8 s

  -- 86
  unfoldable pub operation_direct_value : Outcome Control
  operation_direct_value =
      get codeset (s.offset + 1)
      >> get codeset (s.offset + 3)
      >> u32_at be codeset (s.offset + 4)
      >> advance 8 s

  -- 88
  unfoldable pub operation_register : Outcome Control
  operation_register =
      get codeset (s.offset + 1)
      >> get codeset (s.offset + 3)
      >> get codeset (s.offset + 7)
      >> advance 8 s

  -- 8A and 8C
  unfoldable pub memory_copy : Outcome Control
  memory_copy =
      u16_at be codeset (s.offset + 1)
      >> get codeset (s.offset + 3)
      >> u32_at be codeset (s.offset + 4)
      >> advance 8 s

  -- The two codes of PowerPC code: their data is read and passed over.
  unfoldable pub ppc : Outcome Control
  ppc = do
    count ← u32_at be codeset (s.offset + 4)
    _ ← read_values codeset (count * 8) (s.offset + 8)
    advance (8 + count * 8) s
