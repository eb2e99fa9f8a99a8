-- ===== src/WiirdRunner/Dispatch.antt =====
-- The dispatch of src/wiird_runner.rs: every line is left by one of the effects.
use brawllib_rs.Prelude.{
  ℕ, ◌+◌, ◌*◌, ◌/◌, ◌%◌, ◌≡◌, ◌≢◌, ◌⊎◌, refl, inl, inr, Bool, true, false, [], Option, none, some,
  arith, if◌then◌else◌, ◌==◌,
}
use brawllib_rs.Outcome.{
  Outcome, ok, ◌>>=◌, ◌>>◌, Post, returns, panics, Post-bind, Post-then, Post-if,
}
use brawllib_rs.Bytes.{Bytes, get, BigEndian, u16_at, u32_at}
use brawllib_rs.Bytes.Words.{IsBytes}
use brawllib_rs.Wiird.Code.{Code, Comparison, mask_code, classify}
use brawllib_rs.Wiird.Operand.{JumpFlag, jump_flag}
use brawllib_rs.Wiird.CodeLaws.{classify-mask_code-ne}
use brawllib_rs.Wiird.Size.{IsLines, lines_size-mod}
use brawllib_rs.WiirdRunner.State.{State, Line, Control, stop, advance, target, last_or_true, pop}
use brawllib_rs.WiirdRunner.Fill.{read_values, serial_write}
use brawllib_rs.WiirdRunner.Condition.{if_statement, reset_address_high, endif}
use brawllib_rs.WiirdRunner.Address.{base_address_to_code, pointer_address_to_code}
use brawllib_rs.WiirdRunner.Flow.{
  jumps, set_repeat, execute_repeat, return, goto_flag, goto, subroutine,
}
use brawllib_rs.WiirdRunner.Register.{
  move_gecko_register, operation_direct_value, operation_register, memory_copy, ppc,
}
use brawllib_rs.WiirdRunner.Decode.{
  onward, u16-lt, write_and_fill8-Leaves, write_and_fill16-Leaves, write_and_fill32-Leaves,
  string_write-Leaves, with_operands-Leaves, address_to_code-Leaves, set_gecko_register-Leaves,
}
use brawllib_rs.WiirdRunner.Step.{handle, step}
use brawllib_rs.WiirdRunner.Effect.{
  load_base, load_pointer, set_base, set_pointer, store_base, store_pointer, clear_base,
  clear_pointer, perform, tests, resets, Leaves, moves, breaks,
}

get-at : (b : Bytes) (k : ℕ) → Post (λ v. v ≡ b.at k) (get b k)
unfolding get
get-at b k = Post-if _ (returns refl) panics

module _ (be : BigEndian) (location : ℕ) (codeset : Bytes) (bytes : IsBytes codeset) (line : Line)
    (s : State) (executes : line.execute ≡ last_or_true s.execution_stack) where
  if_statement-Leaves :
      (c : Comparison)
      → Post (Leaves be location (Code.if_statement c) s) (if_statement be codeset line s c)
  unfolding if_statement advance
  if_statement-Leaves c = Post-then (u32_at be codeset (s.offset + 4)) λ v.
      Post-then (u16_at be codeset (s.offset + 4)) λ _.
        Post-then (u16_at be codeset (s.offset + 6)) λ _.
          Post-then (target line.use_base_address (line.address / 2 * 2) s) λ a.
            Post-then _ λ flag.
              returns (moves 8 (tests flag _ tt (pops (line.address % 2 == 1))) (omega arith))
    where
      pops :
          (b : Bool)
          → ((if b then pop s.execution_stack else s.execution_stack) ≡ s.execution_stack)
            ⊎ ((if b then pop s.execution_stack else s.execution_stack) ≡ pop s.execution_stack)
      pops true = inr refl
      pops false = inl refl

  reset_address_high-Leaves :
      Post (Leaves be location Code.reset_address_high s) (reset_address_high be codeset line s)
  unfolding reset_address_high advance
  reset_address_high-Leaves =
      Post-bind (u16-lt be location codeset bytes line s executes (s.offset + 4)) λ base hb.
        Post-bind (u16-lt be location codeset bytes line s executes (s.offset + 6))
          λ pointer hp. returns (moves 8 (resets base pointer [] tt hb hp) (omega arith))

  endif-Leaves : Post (Leaves be location Code.endif s) (endif be codeset line s)
  unfolding endif advance
  endif-Leaves = Post-then (get codeset (s.offset + 1)) λ flags.
      Post-then (get codeset (s.offset + 3)) λ n.
        Post-bind (u16-lt be location codeset bytes line s executes (s.offset + 4)) λ base hb.
          Post-bind (u16-lt be location codeset bytes line s executes (s.offset + 6))
            λ pointer hp. returns (moves 8 (resets base pointer _ tt hb hp) (omega arith))

  -- 64, 66 and 68 break the loop at an unknown flag.
  flagged-Leaves :
      (code : Code) (flag : Option JumpFlag) (known : JumpFlag → Outcome Control)
      → ((f : JumpFlag) → Post (Leaves be location code s) (known f))
      → Post (Leaves be location code s) (elim flag [ none ↦ ok (stop s) | some f ↦ known f ])
  flagged-Leaves code none known h = returns breaks
  flagged-Leaves code (some f) known h = h f

  goto_flag-Leaves :
      (f : JumpFlag) → Post (Leaves be location Code.goto s) (goto_flag be codeset line s f)
  unfolding goto_flag
  goto_flag-Leaves f = Post-then (u16_at be codeset (s.offset + 2)) λ lines.
      Post-bind (Post-if (jumps f line.execute) (lines_size-mod lines) (returns refl)) λ size h.
        onward be location codeset bytes line s executes Code.goto (8 + size) (omega arith)

  return-Leaves : Post (Leaves be location Code.return s) (return be codeset line s)
  unfolding return
  return-Leaves = Post-then (get codeset (s.offset + 1)) λ b.
      flagged-Leaves Code.return (jump_flag b) (λ _. get codeset (s.offset + 7) >> advance 8 s)
        λ _.
          Post-then (get codeset (s.offset + 7))
            λ _. onward be location codeset bytes line s executes Code.return 8 (omega arith)

  goto-Leaves : Post (Leaves be location Code.goto s) (goto be codeset line s)
  unfolding goto
  goto-Leaves =
      Post-then (get codeset (s.offset + 1))
        λ b. flagged-Leaves Code.goto (jump_flag b) (goto_flag be codeset line s) goto_flag-Leaves

  subroutine-Leaves : Post (Leaves be location Code.subroutine s) (subroutine be codeset line s)
  unfolding subroutine
  subroutine-Leaves = Post-then (get codeset (s.offset + 1)) λ b.
      flagged-Leaves Code.subroutine (jump_flag b)
        (λ _. u16_at be codeset (s.offset + 2) >> get codeset (s.offset + 7) >> advance 8 s)
        λ _.
          Post-then _
            λ _. onward be location codeset bytes line s executes Code.subroutine 8 (omega arith)

  -- A line that is read and passed over.
  reads_only-Leaves :
      (code : Code) {A : Type 0} (reads : Outcome A) (n : ℕ)
      → IsLines n
      → Post (Leaves be location code s) (reads >>= λ _. advance n s)
  reads_only-Leaves code reads n h =
      Post-then reads λ _. onward be location codeset bytes line s executes code n h

  ppc-Leaves : (code : Code) → Post (Leaves be location code s) (ppc be codeset line s)
  unfolding ppc
  ppc-Leaves code = Post-then (u32_at be codeset (s.offset + 4)) λ n.
      reads_only-Leaves code (read_values codeset (n * 8) (s.offset + 8)) (8 + n * 8) (omega arith)

  -- Every arm but `0xF0` leaves its line by an effect and a move, or breaks.
  pub handle-Leaves :
      (code : Code)
      → code ≢ Code.end_of_codes
      → Post (Leaves be location code s) (handle be codeset location code line s)
  unfolding handle perform serial_write base_address_to_code pointer_address_to_code set_repeat
      execute_repeat move_gecko_register operation_direct_value operation_register memory_copy
  handle-Leaves Code.write_and_fill8 ne =
      write_and_fill8-Leaves be location codeset bytes line s executes
  handle-Leaves Code.write_and_fill16 ne =
      write_and_fill16-Leaves be location codeset bytes line s executes
  handle-Leaves Code.write_and_fill32 ne =
      write_and_fill32-Leaves be location codeset bytes line s executes
  handle-Leaves Code.string_write ne = string_write-Leaves be location codeset bytes line s executes
  handle-Leaves Code.serial_write ne = reads_only-Leaves _ _ 16 (omega arith)
  handle-Leaves (Code.if_statement c) ne = if_statement-Leaves c
  handle-Leaves Code.load_base_address ne =
      with_operands-Leaves be location codeset bytes line s executes _ load_base (λ o. tt)
        (λ o h. h)
  handle-Leaves Code.set_base_address ne =
      with_operands-Leaves be location codeset bytes line s executes _ set_base (λ o. tt) (λ o h. h)
  handle-Leaves Code.store_base_address ne =
      with_operands-Leaves be location codeset bytes line s executes _ store_base (λ o. tt)
        (λ o h. h)
  handle-Leaves Code.load_pointer_address ne =
      with_operands-Leaves be location codeset bytes line s executes _ load_pointer (λ o. tt)
        (λ o h. h)
  handle-Leaves Code.set_pointer_address ne =
      with_operands-Leaves be location codeset bytes line s executes _ set_pointer (λ o. tt)
        (λ o h. h)
  handle-Leaves Code.store_pointer_address ne =
      with_operands-Leaves be location codeset bytes line s executes _ store_pointer (λ o. tt)
        (λ o h. h)
  handle-Leaves Code.base_address_to_code ne =
      address_to_code-Leaves be location codeset bytes line s executes _ clear_base tt tt
  handle-Leaves Code.pointer_address_to_code ne =
      address_to_code-Leaves be location codeset bytes line s executes _ clear_pointer tt tt
  handle-Leaves Code.return ne = return-Leaves
  handle-Leaves Code.goto ne = goto-Leaves
  handle-Leaves Code.subroutine ne = subroutine-Leaves
  handle-Leaves Code.set_gecko_register ne =
      set_gecko_register-Leaves be location codeset bytes line s executes
  handle-Leaves Code.execute_ppc ne = ppc-Leaves _
  handle-Leaves Code.insert_ppc ne = ppc-Leaves _
  handle-Leaves Code.reset_address_high ne = reset_address_high-Leaves
  handle-Leaves Code.endif ne = endif-Leaves
  handle-Leaves Code.end_of_codes ne = absurd (ne refl)
  handle-Leaves Code.unknown ne = returns breaks
  handle-Leaves _ ne = reads_only-Leaves _ _ 8 (omega arith)

-- The code of the line at an offset.
abbrev pub code_at : Bytes → ℕ → Code
code_at codeset k = classify (mask_code (codeset.at k))

-- What one round of the loop may do at a line inside the codeset: the effect of the line's code
-- and a move by whole lines, or a break.
pub step-Leaves :
    (be : BigEndian) (location : ℕ) (codeset : Bytes)
    → IsBytes codeset
    → (s : State)
    → Post (Leaves be location (code_at codeset s.offset) s) (step be codeset location s)
unfolding step get
step-Leaves be location codeset bytes s = Post-bind (get-at codeset s.offset) λ head e. rw (← e) (
    Post-then (u32_at be codeset s.offset) λ word.
      handle-Leaves be location codeset bytes _ s refl (classify (mask_code head))
        (classify-mask_code-ne head))
