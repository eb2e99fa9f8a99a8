-- ===== src/WiirdRunner/Step.antt =====
-- The loop of `process` of src/wiird_runner.rs, and `process`.
use brawllib_rs.Prelude.{
  ℕ, zero, suc, ◌+◌, ◌%◌, ◌^◌, true, false, not, [], Option, none, some, ltb, replicate,
}
use brawllib_rs.Outcome.{Outcome, ok, panic, ◌>>=◌}
use brawllib_rs.Bytes.{Bytes, get, BigEndian, u32_at}
use brawllib_rs.WiiMemory.{WiiMemory, new, write_u8}
use brawllib_rs.Wiird.Code.{Code, test_bit, mask_code, classify}
use brawllib_rs.WiirdRunner.State.{State, Line, Control, next, stop, last_or_true}
use brawllib_rs.WiirdRunner.Fill.{
  write_and_fill8, write_and_fill16, write_and_fill32, string_write, serial_write,
}
use brawllib_rs.WiirdRunner.Condition.{if_statement, reset_address_high, endif}
use brawllib_rs.WiirdRunner.Address.{
  load_base, set_base, store_base, load_pointer, set_pointer, store_pointer, with_operands,
  base_address_to_code, pointer_address_to_code,
}
use brawllib_rs.WiirdRunner.Flow.{set_repeat, execute_repeat, return, goto, subroutine}
use brawllib_rs.WiirdRunner.Register.{
  set_gecko_register, move_gecko_register, operation_direct_value, operation_register, memory_copy,
  ppc,
}

module _ (be : BigEndian) (codeset : Bytes) (location : ℕ) where
  -- `match code { ... }`
  unfoldable pub handle : Code → Line → State → Outcome Control
  handle Code.write_and_fill8 line s = write_and_fill8 be codeset location line s
  handle Code.write_and_fill16 line s = write_and_fill16 be codeset location line s
  handle Code.write_and_fill32 line s = write_and_fill32 be codeset location line s
  handle Code.string_write line s = string_write be codeset location line s
  handle Code.serial_write line s = serial_write be codeset location line s
  handle (Code.if_statement comparison) line s = if_statement be codeset line s comparison
  handle Code.load_base_address line s = with_operands be codeset line s (load_base be)
  handle Code.set_base_address line s = with_operands be codeset line s set_base
  handle Code.store_base_address line s = with_operands be codeset line s (store_base be)
  handle Code.base_address_to_code line s = base_address_to_code be codeset line s
  handle Code.load_pointer_address line s = with_operands be codeset line s (load_pointer be)
  handle Code.set_pointer_address line s = with_operands be codeset line s set_pointer
  handle Code.store_pointer_address line s = with_operands be codeset line s (store_pointer be)
  handle Code.pointer_address_to_code line s = pointer_address_to_code be codeset line s
  handle Code.set_repeat line s = set_repeat be codeset line s
  handle Code.execute_repeat line s = execute_repeat be codeset line s
  handle Code.return line s = return be codeset line s
  handle Code.goto line s = goto be codeset line s
  handle Code.subroutine line s = subroutine be codeset line s
  handle Code.set_gecko_register line s = set_gecko_register be codeset line s
  handle Code.load_gecko_register line s = move_gecko_register be codeset line s
  handle Code.store_gecko_register line s = move_gecko_register be codeset line s
  handle Code.operation_direct_value line s = operation_direct_value be codeset line s
  handle Code.operation_register line s = operation_register be codeset line s
  handle Code.memory_copy1 line s = memory_copy be codeset line s
  handle Code.memory_copy2 line s = memory_copy be codeset line s
  handle Code.execute_ppc line s = ppc be codeset line s
  handle Code.insert_ppc line s = ppc be codeset line s
  handle Code.reset_address_high line s = reset_address_high be codeset line s
  handle Code.endif line s = endif be codeset line s
  handle Code.end_of_codes line s = ok (next s)
  handle Code.unknown line s = ok (stop s)

  -- The body of the loop.
  unfoldable pub step : State → Outcome Control
  step s = do
    head ← get codeset s.offset
    word ← u32_at be codeset s.offset
    handle (classify (mask_code head))
        (record {
          use_base_address = not (test_bit head 4);
          address = word % 2 ^ 25;
          execute = last_or_true s.execution_stack;
        })
        s

  -- `while offset < codeset.len()`, with fuel; `none` means that the fuel ran out.
  unfoldable pub run : ℕ → State → Option (Outcome State)
  run zero s = none
  run (suc fuel) s = elim (ltb s.offset codeset.len) [
    | false ↦ some (ok s)
    | true ↦ elim (step s) [
      | panic ↦ some panic
      | ok (stop s') ↦ some (ok s')
      | ok (next s') ↦ run fuel s'
    ]
  ]

-- `for (i, value) in buffer.iter().enumerate() { memory.write_u8(location + i, *value); }`
unfoldable pub load_buffer : (rounds location i : ℕ) → Bytes → WiiMemory → Outcome WiiMemory
load_buffer zero location i buffer memory = ok memory
load_buffer (suc n) location i buffer memory = do
  memory' ← write_u8 memory (location + i) (buffer.at i)
  load_buffer n location (i + 1) buffer memory'

unfoldable pub start : Bytes → WiiMemory → State
start buffer memory = record {
  memory = memory;
  buffer = buffer;
  gecko_registers = replicate 0x10 0;
  base_address = 0x8000_0000;
  pointer_address = 0x8000_0000;
  execution_stack = [];
  offset = 0;
}

-- The final state: the memory that the source returns, and the buffer that it was lent. Each line
-- moves the offset by 8 or more, so a round for each byte and one more is enough.
unfoldable pub process :
    BigEndian → (codeset buffer : Bytes) (location : ℕ) → Option (Outcome State)
process be codeset buffer location = elim (load_buffer buffer.len location 0 buffer new) [
  | panic ↦ some panic
  | ok memory ↦ run be codeset location (codeset.len + 1) (start buffer memory)
]
