-- ===== src/Wiird/Entry.antt =====
-- One line of `process_block` in src/wiird.rs: how it is read from the slice, and what an arm of
-- `match code` does with it.
use brawllib_rs.Prelude.{ℕ, zero, suc, ◌+◌, Bool, List, [], ◌∷◌}
use brawllib_rs.Outcome.{Outcome, ok, ◌>>=◌}
use brawllib_rs.Bytes.{Bytes, get, BigEndian, u16_at, u32_at}
use brawllib_rs.Wiird.Block.{WiirdCode, IfTest}

-- The reads of a line at `offset`: `data[offset + i]`, and `read_u16` and `read_u32` of
-- `&data[offset + i ..]`.
pub record Reader : Type 0 where
  pub byte : ℕ → Outcome ℕ
  pub half : ℕ → Outcome ℕ
  pub word : ℕ → Outcome ℕ

unfoldable pub reader : BigEndian → Bytes → ℕ → Reader
reader be bytes offset = record {
  byte = λ i. get bytes (offset + i);
  half = λ i. u16_at be bytes (offset + i);
  word = λ i. u32_at be bytes (offset + i);
}

-- What an arm leaves to the loop: `codes.push(..); offset += n`, `offset += n` alone, the tests
-- with their block to read, E0 and E2 with their operands, and an early return of what was read.
pub data Entry : Type 0 where
  code : WiirdCode → (size : ℕ) → Entry
  skip : (size : ℕ) → Entry
  if_statement : IfTest → Entry
  reset_address_high : (reset_base_address_high reset_pointer_address_high : ℕ) → Entry
  endif :
      (else_branch : Bool) (count reset_base_address_high reset_pointer_address_high : ℕ) → Entry
  failure : Entry

-- `for i in 0..count { values.push(data[offset + i]); }`
unfoldable pub read_bytes : Reader → (count i : ℕ) → Outcome (List ℕ)
read_bytes line zero i = ok []
read_bytes line (suc n) i = do
  value ← line.byte i
  values ← read_bytes line n (i + 1)
  ok (value ∷ values)
