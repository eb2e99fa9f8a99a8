-- ===== src/WiirdRunner/Fill.antt =====
-- Codes 00, 02, 04, 06 and 08 of src/wiird_runner.rs: writes of bytes, half words, a word and a
-- string to memory, repeated on the buffer that the caller gave where the address lies in it.
use brawllib_rs.Prelude.{
  ℕ, zero, suc, ◌+◌, ◌-◌, ◌*◌, ◌%◌, ◌^◌, Bool, false, List, [], ◌∷◌, ltb, leb, if◌then◌else◌,
}
use brawllib_rs.Outcome.{Outcome, ok, ◌>>=◌, ◌>>◌, add_u32}
use brawllib_rs.Bytes.{Bytes, get, put, BigEndian, u16_at, u32_at, put_u16, put_u32}
use brawllib_rs.WiiMemory.{write_u8, write_u16, write_u32}
use brawllib_rs.Wiird.Size.{aligned_size}
use brawllib_rs.WiirdRunner.State.{State, Line, Control, when, advance, target}

-- `current_address >= buffer_ram_location && current_address < buffer_ram_location + buffer.len() as u32`
unfoldable pub in_buffer : (location address : ℕ) → Bytes → Outcome Bool
in_buffer location address buffer =
    if leb location address
    then (do end ← add_u32 location (buffer.len % 2 ^ 32); ok (ltb address end))
    else ok false

-- The mirror of a write on the buffer.
unfoldable pub mirror : (Bytes → ℕ → Outcome Bytes) → (location address : ℕ) → State → Outcome State
unfolding in_buffer
mirror write location address s = do
  inside ← in_buffer location address s.buffer
  if inside
      then (do buffer ← write s.buffer (address - location); ok (record s { buffer = buffer }))
      else ok s

-- The body of the loops of 00 and 06.
unfoldable pub store8 : (location address value : ℕ) → State → Outcome State
store8 location address value s = do
  memory ← write_u8 s.memory address value
  mirror (λ b k. put b k value) location address (record s { memory = memory })

-- `for i in 0..length`, from `i` on with `n` rounds left
unfoldable pub fill8 : ℕ → (location mem_address value i : ℕ) → State → Outcome State
fill8 zero location mem_address value i s = ok s
fill8 (suc n) location mem_address value i s = do
  current_address ← add_u32 mem_address i
  s' ← store8 location current_address value s
  fill8 n location mem_address value (i + 1) s'

-- `for (i, value) in values.iter().enumerate()`
unfoldable pub write_string : List ℕ → (location mem_address i : ℕ) → State → Outcome State
write_string [] location mem_address i s = ok s
write_string (value ∷ values) location mem_address i s = do
  current_address ← add_u32 mem_address i
  s' ← store8 location current_address value s
  write_string values location mem_address (i + 1) s'

-- `for i in 0..count { values.push(codeset[start + i]); }`
unfoldable pub read_values : Bytes → (count start : ℕ) → Outcome (List ℕ)
read_values codeset zero start = ok []
read_values codeset (suc n) start = do
  value ← get codeset start
  values ← read_values codeset n (start + 1)
  ok (value ∷ values)

module _ (be : BigEndian) (location : ℕ) where
  -- The body of the loop of 02.
  unfoldable pub store16 : (address value : ℕ) → State → Outcome State
  store16 address value s = do
    memory ← write_u16 be s.memory address value
    mirror (λ b k. put_u16 be b k value) location address (record s { memory = memory })

  unfoldable pub fill16 : ℕ → (mem_address value i : ℕ) → State → Outcome State
  fill16 zero mem_address value i s = ok s
  fill16 (suc n) mem_address value i s = do
    current_address ← add_u32 mem_address (i * 2)
    s' ← store16 current_address value s
    fill16 n mem_address value (i + 1) s'

  -- 04 writes to memory only where it writes to the buffer.
  unfoldable pub fill32 : (mem_address value : ℕ) → State → Outcome State
  unfolding in_buffer
  fill32 mem_address value s = do
    inside ← in_buffer location mem_address s.buffer
    if inside
        then (do
          memory ← write_u32 be s.memory mem_address value
          buffer ← put_u32 be s.buffer (mem_address - location) value
          ok (record s { memory = memory; buffer = buffer }))
        else ok s

module _ (be : BigEndian) (codeset : Bytes) (location : ℕ) (line : Line) (s : State) where
  unfoldable pub write_and_fill8 : Outcome Control
  write_and_fill8 = do
    value ← get codeset (s.offset + 7)
    length ← u16_at be codeset (s.offset + 4)
    mem_address ← target line.use_base_address line.address s
    s' ← when line.execute (fill8 (length + 1) location mem_address value 0) s
    advance 8 s'

  unfoldable pub write_and_fill16 : Outcome Control
  write_and_fill16 = do
    value ← u16_at be codeset (s.offset + 6)
    length ← u16_at be codeset (s.offset + 4)
    mem_address ← target line.use_base_address line.address s
    s' ← when line.execute (fill16 be location (length + 1) mem_address value 0) s
    advance 8 s'

  unfoldable pub write_and_fill32 : Outcome Control
  write_and_fill32 = do
    value ← u32_at be codeset (s.offset + 4)
    mem_address ← target line.use_base_address line.address s
    s' ← when line.execute (fill32 be location mem_address value) s
    advance 8 s'

  unfoldable pub string_write : Outcome Control
  string_write = do
    count ← u32_at be codeset (s.offset + 4)
    values ← read_values codeset count (s.offset + 8)
    mem_address ← target line.use_base_address line.address s
    s' ← when line.execute (write_string values location mem_address 0) s
    advance (aligned_size count) s'

  -- 08 reads its operands and does nothing with them.
  unfoldable pub serial_write : Outcome Control
  serial_write =
      u32_at be codeset (s.offset + 4)
      >> get codeset (s.offset + 8)
      >> u16_at be codeset (s.offset + 8)
      >> u16_at be codeset (s.offset + 10)
      >> u32_at be codeset (s.offset + 12)
      >> advance 16 s
