-- ===== src/WiirdRunner/Jump.antt =====
-- Code 66 of src/wiird_runner.rs by the bytes of its line: when it jumps, and where to.
use brawllib_rs.Prelude.{
  ℕ, ◌+◌, ◌*◌, ◌^◌, ◌<◌, ◌≤◌, ◌≡◌, refl, ◌∙◌, Bool, true, not, ltb, leb, ◌==◌, if◌then◌else◌, arith,
}
use brawllib_rs.Outcome.{ok, panic, mul_usize}
use brawllib_rs.Bytes.{Bytes, get, BigEndian, u16_at}
use brawllib_rs.Bytes.Words.{IsBytes, half_at, u16_at_lem, half_at-lt}
use brawllib_rs.Wiird.Code.{classify}
use brawllib_rs.Wiird.Operand.{JumpFlag, when_true, when_false, always, jump_flag}
use brawllib_rs.WiirdRunner.State.{State, Line, next, stop, advance, last_or_true}
use brawllib_rs.WiirdRunner.Flow.{jumps, goto_flag, goto}
use brawllib_rs.WiirdRunner.Step.{handle, step}
use brawllib_rs.WiirdRunner.Round.{IsNumber, line_at, step-handle}
use brawllib_rs.Wiird.Size.{lines_size}

lines_size_lem :
    (lines : ℕ)
    → lines < 2 ^ 16
    → lines_size lines ≡ (if ltb lines (2 ^ 15) then ok (8 * lines) else panic)
unfolding lines_size mul_usize
lines_size_lem lines h = ground arith

goto_flag_lem :
    (be : BigEndian) (codeset : Bytes) (line : Line) (s : State) (flag : JumpFlag) (lines : ℕ)
    → lines < 2 ^ 16
    → u16_at be codeset (s.offset + 2) ≡ ok lines
    → goto_flag be codeset line s flag ≡ (
        if jumps flag line.execute
        then (if ltb lines (2 ^ 15)
            then ok (next (record s { offset = s.offset + (8 + 8 * lines) }))
            else panic)
        else ok (next (record s { offset = s.offset + 8 })))
unfolding goto_flag advance
goto_flag_lem be codeset line s flag lines h read = rw read (ground (arith, lines_size_lem lines h))

-- The flag byte of a jump: 0x00 jumps while execution is enabled, 0x10 while it is disabled.
abbrev pub is_taken : (flag : ℕ) (execute : Bool) → Bool
is_taken flag execute = if flag == 0x20 then true else if flag == 0x10 then not execute else execute

abbrev pub is_flag : ℕ → Bool
is_flag flag = if flag == 0x20 then true else if flag == 0x10 then true else flag == 0x00

module _ (be : BigEndian) (codeset : Bytes) (location : ℕ) (s : State) where
  goto_lem :
      (line : Line) (b lines : ℕ)
      → lines < 2 ^ 16
      → get codeset (s.offset + 1) ≡ ok b
      → u16_at be codeset (s.offset + 2) ≡ ok lines
      → goto be codeset line s ≡ (
          if is_flag b
          then (if is_taken b line.execute
              then (if ltb lines (2 ^ 15)
                  then ok (next (record s { offset = s.offset + (8 + 8 * lines) }))
                  else panic)
              else ok (next (record s { offset = s.offset + 8 })))
          else ok (stop s))
  unfolding goto jump_flag jumps
  goto_lem line b lines h flag_byte read = rw flag_byte (
      let known = λ (flag : JumpFlag). goto_flag_lem be codeset line s flag lines h read in
      ground (arith, known when_true, known when_false, known always))

  -- A round at a line whose first byte is 66, but for its bits 0 and 4: a flag byte other than 0x00, 0x10
  -- and 0x20 breaks the loop. 0x20 jumps, 0x00 does while execution is enabled and 0x10 while it is
  -- disabled; a jump goes on by 8 bytes and by 8 for each line that the half word after the flag counts,
  -- and panics if that is negative, since its extension to usize overflows when multiplied by 8. Without a
  -- jump the round goes on by 8 bytes. Nothing but the offset changes.
  pub step-goto :
      IsBytes codeset
      → IsNumber (codeset.at s.offset) 0x66
      → s.offset + 4 ≤ codeset.len
      → step be codeset location s ≡ (
          let flag = codeset.at (s.offset + 1) in
          let lines = half_at codeset.at (s.offset + 2) in
          if is_flag flag
          then (if is_taken flag (last_or_true s.execution_stack)
              then (if ltb lines (2 ^ 15)
                  then ok (next (record s { offset = s.offset + (8 + 8 * lines) }))
                  else panic)
              else ok (next (record s { offset = s.offset + 8 })))
          else ok (stop s))
  unfolding handle get classify
  step-goto bytes same room =
      let inside : ltb (s.offset + 1) codeset.len ≡ true = ground arith in
      let fits : leb (s.offset + 2 + 2) codeset.len ≡ true = ground arith in
      step-handle be codeset location s 0x66 refl refl same room
      ∙ goto_lem (line_at be codeset location s) (codeset.at (s.offset + 1))
          (half_at codeset.at (s.offset + 2)) (half_at-lt codeset.at (s.offset + 2) bytes)
          (rw inside refl) (rw (u16_at_lem be codeset (s.offset + 2), fits) refl)
