-- ===== src/Wiird/Lines.antt =====
-- What `process_block` of src/wiird.rs takes of its slice for a line: whole lines of 8 bytes, and
-- for a terminator or a test no more than is there.
use brawllib_rs.Prelude.{
  ℕ, ◌+◌, ◌*◌, ◌%◌, ◌^◌, ◌≤◌, ◌≢◌, refl, inl, inr, Bool, not, Option, none, some, leb, leb→le,
  Bool-cases, arith,
}
use brawllib_rs.Outcome.{ok, ◌>>=◌, Post, returns, panics, Post-bind, Post-then}
use brawllib_rs.Bytes.{Bytes, BigEndian, u16_at}
use brawllib_rs.Bytes.Words.{u16_at_lem}
use brawllib_rs.Wiird.Code.{Code, classify, mask_code, test_bit}
use brawllib_rs.Wiird.CodeLaws.{classify-mask_code-ne}
use brawllib_rs.Wiird.Operand.{JumpFlag, when_true, when_false, always, jump_flag}
use brawllib_rs.Wiird.Size.{IsLines, aligned_size-IsLines, lines_size-mod}
use brawllib_rs.Wiird.Entry.{Entry, Reader, reader, code, skip, failure, read_bytes}
use brawllib_rs.Wiird.Block.{WiirdCode}
use brawllib_rs.Wiird.Arms.{AddressOperands, address_operands}
use brawllib_rs.Wiird.Arms
use brawllib_rs.Wiird.OtherArms
use brawllib_rs.Wiird.Parse.{read_code, read_line}

-- What the loop may rely on, when an entry was read at `offset`.
abbrev pub IsEntry : Bytes → ℕ → Entry → Type 0
IsEntry bytes offset (code c n) = IsLines n
IsEntry bytes offset (skip n) = IsLines n
IsEntry bytes offset (Entry.if_statement t) = Unit
IsEntry bytes offset (Entry.reset_address_high b p) = offset + 8 ≤ bytes.len
IsEntry bytes offset (Entry.endif e n b p) = offset + 8 ≤ bytes.len
IsEntry bytes offset failure = Unit

line_of_8 : IsLines 8
line_of_8 = (omega arith, refl)

line_of_16 : IsLines 16
line_of_16 = (omega arith, refl)

module _ (be : BigEndian) (bytes : Bytes) (offset : ℕ) where
  half-fits : (i : ℕ) → Post (λ _. offset + i + 2 ≤ bytes.len) (u16_at be bytes (offset + i))
  half-fits i = elim (Bool-cases (leb (offset + i + 2) bytes.len)) [
    | inl h ↦ rw (u16_at_lem, h) (returns (leb→le _ _ h))
    | inr h ↦ rw (u16_at_lem, h) panics
  ]

  abbrev line : Reader
  line = reader be bytes offset

  goto_lines-IsEntry :
      (flag : JumpFlag) (lines : ℕ)
      → Post (IsEntry bytes offset) (OtherArms.goto_lines line flag lines)
  unfolding OtherArms.goto_lines
  goto_lines-IsEntry always lines =
      Post-bind (lines_size-mod lines) λ n h. returns (omega arith, omega (arith, h))
  goto_lines-IsEntry when_true lines = returns line_of_8
  goto_lines-IsEntry when_false lines = returns line_of_8

  goto-IsEntry :
      (f : Option JumpFlag)
      → Post (IsEntry bytes offset) (elim f [
        | none ↦ ok failure
        | some flag ↦ line.half 2 >>= OtherArms.goto_lines line flag
      ])
  goto-IsEntry none = returns tt
  goto-IsEntry (some flag) = Post-then (line.half 2) (goto_lines-IsEntry flag)

  return-IsEntry :
      (f : Option JumpFlag)
      → Post (IsEntry bytes offset) (elim f [
        | none ↦ ok failure
        | some flag ↦
            line.byte 7 >>= λ block_id. ok (code (WiirdCode.return flag (block_id % 16)) 8)
      ])
  return-IsEntry none = returns tt
  return-IsEntry (some flag) = Post-then (line.byte 7) λ _. returns line_of_8

  subroutine-IsEntry :
      (f : Option JumpFlag)
      → Post (IsEntry bytes offset) (elim f [
        | none ↦ ok failure
        | some flag ↦ line.half 2 >>= λ offset_lines. line.byte 7 >>= λ block_id.
            ok (code (WiirdCode.subroutine flag offset_lines (block_id % 16)) 8)
      ])
  subroutine-IsEntry none = returns tt
  subroutine-IsEntry (some flag) =
      Post-then (line.half 2) λ _. Post-then (line.byte 7) λ _. returns line_of_8

  -- The arms of 40 to 4C read the same operands.
  with_operands-IsEntry :
      (b : Bool) (f : AddressOperands → WiirdCode)
      → Post (IsEntry bytes offset) (address_operands line b >>= λ o. ok (code (f o) 8))
  with_operands-IsEntry b f = Post-then (address_operands line b) λ _. returns line_of_8

  -- PowerPC code takes 8 bytes for each line that it counts, after its own.
  ppc_size-IsLines : (count : ℕ) → IsLines (8 + count * 8)
  ppc_size-IsLines count = (omega arith, omega arith)

  read_code-IsEntry :
      (c : Code) (b : Bool) (a : ℕ)
      → c ≢ Code.end_of_codes
      → Post (IsEntry bytes offset) (read_code c line b a)
  unfolding read_code Arms.write_and_fill8 Arms.write_and_fill16 Arms.write_and_fill32
      Arms.string_write Arms.serial_write Arms.if_statement Arms.load_base_address
      Arms.set_base_address Arms.store_base_address Arms.load_pointer_address
      Arms.set_pointer_address Arms.store_pointer_address Arms.set_gecko_register Arms.insert_ppc
      OtherArms.set_base_address_to_code_location OtherArms.set_pointer_address_to_code_location
      OtherArms.set_repeat OtherArms.execute_repeat OtherArms.return OtherArms.goto
      OtherArms.subroutine OtherArms.load_gecko_register OtherArms.store_gecko_register
      OtherArms.operation_gecko_register_direct_value OtherArms.operation_gecko_register
      OtherArms.memory_copy1 OtherArms.memory_copy2 OtherArms.execute_ppc
      OtherArms.reset_address_high OtherArms.endif reader
  read_code-IsEntry Code.write_and_fill8 b a ne =
      Post-then (line.byte 7) λ _. Post-then (line.half 4) λ _. returns line_of_8
  read_code-IsEntry Code.write_and_fill16 b a ne =
      Post-then (line.half 6) λ _. Post-then (line.half 4) λ _. returns line_of_8
  read_code-IsEntry Code.write_and_fill32 b a ne = Post-then (line.word 4) λ _. returns line_of_8
  read_code-IsEntry Code.string_write b a ne =
      Post-then (line.word 4)
        λ count. Post-then (read_bytes line count 8) λ _. returns (aligned_size-IsLines count)
  read_code-IsEntry Code.serial_write b a ne = Post-then (line.word 4) λ _.
      Post-then (line.byte 8) λ _.
        Post-then (line.half 8)
          λ _. Post-then (line.half 10) λ _. Post-then (line.word 12) λ _. returns line_of_16
  read_code-IsEntry (Code.if_statement c) b a ne =
      Post-then (line.word 4)
        λ _. Post-then (line.half 4) λ _. Post-then (line.half 6) λ _. returns tt
  read_code-IsEntry Code.load_base_address b a ne = with_operands-IsEntry b _
  read_code-IsEntry Code.set_base_address b a ne = with_operands-IsEntry b _
  read_code-IsEntry Code.store_base_address b a ne = with_operands-IsEntry b _
  read_code-IsEntry Code.base_address_to_code b a ne =
      Post-then (line.half 2) λ _. returns line_of_8
  read_code-IsEntry Code.load_pointer_address b a ne = with_operands-IsEntry b _
  read_code-IsEntry Code.set_pointer_address b a ne = with_operands-IsEntry b _
  read_code-IsEntry Code.store_pointer_address b a ne = with_operands-IsEntry b _
  read_code-IsEntry Code.pointer_address_to_code b a ne =
      Post-then (line.half 2) λ _. returns line_of_8
  read_code-IsEntry Code.set_repeat b a ne =
      Post-then (line.half 2) λ _. Post-then (line.byte 7) λ _. returns line_of_8
  read_code-IsEntry Code.execute_repeat b a ne = Post-then (line.byte 7) λ _. returns line_of_8
  read_code-IsEntry Code.return b a ne = Post-then (line.byte 1) λ f. return-IsEntry (jump_flag f)
  read_code-IsEntry Code.goto b a ne = Post-then (line.byte 1) λ f. goto-IsEntry (jump_flag f)
  read_code-IsEntry Code.subroutine b a ne =
      Post-then (line.byte 1) λ f. subroutine-IsEntry (jump_flag f)
  read_code-IsEntry Code.set_gecko_register b a ne =
      Post-then (line.byte 1)
        λ _. Post-then (line.byte 3) λ _. Post-then (line.word 4) λ _. returns line_of_8
  read_code-IsEntry Code.load_gecko_register b a ne =
      Post-then (line.byte 3) λ _. Post-then (line.word 4) λ _. returns line_of_8
  read_code-IsEntry Code.store_gecko_register b a ne =
      Post-then (line.byte 3) λ _. Post-then (line.word 4) λ _. returns line_of_8
  read_code-IsEntry Code.operation_direct_value b a ne =
      Post-then (line.byte 1)
        λ _. Post-then (line.byte 3) λ _. Post-then (line.word 4) λ _. returns line_of_8
  read_code-IsEntry Code.operation_register b a ne =
      Post-then (line.byte 1)
        λ _. Post-then (line.byte 3) λ _. Post-then (line.byte 7) λ _. returns line_of_8
  read_code-IsEntry Code.memory_copy1 b a ne =
      Post-then (line.half 1)
        λ _. Post-then (line.byte 3) λ _. Post-then (line.word 4) λ _. returns line_of_8
  read_code-IsEntry Code.memory_copy2 b a ne =
      Post-then (line.half 1)
        λ _. Post-then (line.byte 3) λ _. Post-then (line.word 4) λ _. returns line_of_8
  read_code-IsEntry Code.execute_ppc b a ne =
      Post-then (line.word 4)
        λ count. Post-then (read_bytes line (count * 8) 8) λ _. returns (ppc_size-IsLines count)
  read_code-IsEntry Code.insert_ppc b a ne =
      Post-then (line.word 4)
        λ count. Post-then (read_bytes line (count * 8) 8) λ _. returns (ppc_size-IsLines count)
  read_code-IsEntry Code.reset_address_high b a ne = Post-then (line.half 4) λ _.
      Post-bind (half-fits 6)
        λ _ h. let room : offset + 8 ≤ bytes.len = omega (arith, h) in returns room
  read_code-IsEntry Code.endif b a ne = Post-then (line.byte 1) λ _. Post-then (line.byte 3) λ _.
      Post-then (line.half 4) λ _.
        Post-bind (half-fits 6)
          λ _ h. let room : offset + 8 ≤ bytes.len = omega (arith, h) in returns room
  read_code-IsEntry Code.end_of_codes b a ne = absurd (ne refl)
  read_code-IsEntry Code.unknown b a ne = returns tt

  pub read_line-IsEntry : Post (IsEntry bytes offset) (read_line line)
  unfolding read_line
  read_line-IsEntry = Post-then (line.byte 0) λ head. Post-then (line.word 0) λ word.
      read_code-IsEntry (classify (mask_code head)) (not (test_bit head 4)) (word % 2 ^ 25)
        (classify-mask_code-ne head)
