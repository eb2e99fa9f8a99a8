-- ===== src/WiirdRunner/Flow.antt =====
-- Codes 60 to 68 of src/wiird_runner.rs. Only goto has an effect; the others read their operands,
-- and an unknown flag breaks the loop.
use brawllib_rs.Prelude.{◌+◌, Bool, true, not, none, some, if◌then◌else◌}
use brawllib_rs.Outcome.{Outcome, ok, ◌>>=◌, ◌>>◌}
use brawllib_rs.Bytes.{Bytes, get, BigEndian, u16_at}
use brawllib_rs.Wiird.Operand.{JumpFlag, when_true, when_false, always, jump_flag}
use brawllib_rs.Wiird.Size.{lines_size}
use brawllib_rs.WiirdRunner.State.{State, Line, Control, stop, advance}

unfoldable pub jumps : JumpFlag → Bool → Bool
jumps when_true execute = execute
jumps when_false execute = not execute
jumps always execute = true

module _ (be : BigEndian) (codeset : Bytes) (line : Line) (s : State) where
  -- 60
  unfoldable pub set_repeat : Outcome Control
  set_repeat = u16_at be codeset (s.offset + 2) >> get codeset (s.offset + 7) >> advance 8 s

  -- 62
  unfoldable pub execute_repeat : Outcome Control
  execute_repeat = get codeset (s.offset + 7) >> advance 8 s

  -- 64
  unfoldable pub return : Outcome Control
  return = do
    b ← get codeset (s.offset + 1)
    elim (jump_flag b) [ none ↦ ok (stop s) | some _ ↦ get codeset (s.offset + 7) >> advance 8 s ]

  unfoldable pub goto_flag : JumpFlag → Outcome Control
  goto_flag flag = do
    offset_lines ← u16_at be codeset (s.offset + 2)
    size ← if jumps flag line.execute then lines_size offset_lines else ok 0
    advance (8 + size) s

  -- 66
  unfoldable pub goto : Outcome Control
  unfolding goto_flag
  goto = do
    b ← get codeset (s.offset + 1)
    elim (jump_flag b) [ none ↦ ok (stop s) | some flag ↦ goto_flag flag ]

  -- 68
  unfoldable pub subroutine : Outcome Control
  subroutine = do
    b ← get codeset (s.offset + 1)
    elim (jump_flag b) [
      | none ↦ ok (stop s)
      | some _ ↦ u16_at be codeset (s.offset + 2) >> get codeset (s.offset + 7) >> advance 8 s
    ]
