-- ===== src/WiirdRunner/Disabled.antt =====
-- While the last flag of the execution stack is false, a line of src/wiird_runner.rs can only test,
-- terminate or be passed over.
use brawllib_rs.Prelude.{ℕ, ◌≡◌, refl, false}
use brawllib_rs.Outcome.{Post, Post-mono}
use brawllib_rs.Bytes.{Bytes, BigEndian}
use brawllib_rs.Bytes.Words.{IsBytes}
use brawllib_rs.Wiird.Code.{Code}
use brawllib_rs.WiirdRunner.State.{State, Control, last_or_true}
use brawllib_rs.WiirdRunner.Step.{step}
use brawllib_rs.WiirdRunner.Effect.{Effect, idle, acts, tests, resets, Leaves, moves, breaks}
use brawllib_rs.WiirdRunner.Dispatch.{step-Leaves}
use brawllib_rs.WiirdRunner.Loop.{After}

-- Memory, buffer and registers are those of `s`.
pub record SameData (s s' : State) : Type 0 where
  pub memory : s'.memory ≡ s.memory
  pub buffer : s'.buffer ≡ s.buffer
  pub registers : s'.gecko_registers ≡ s.gecko_registers

module _ (be : BigEndian) (location : ℕ) where
  Effect-SameData :
      {code : Code} {s t : State}
      → Effect be location code s t
      → last_or_true s.execution_stack ≡ false
      → SameData s t
  Effect-SameData idle off = record { memory = refl; buffer = refl; registers = refl }
  Effect-SameData (acts act for fits on done) off = cc
  Effect-SameData (tests flag stack is from) off = record {
    memory = refl;
    buffer = refl;
    registers = refl;
  }
  Effect-SameData (resets base pointer stack is hb hp) off = record {
    memory = refl;
    buffer = refl;
    registers = refl;
  }

  Leaves-SameData :
      {code : Code} {s : State} {c : Control}
      → Leaves be location code s c
      → last_or_true s.execution_stack ≡ false
      → After (SameData s) c
  Leaves-SameData (moves n e h) off =
      let same = Effect-SameData e off in
      record { memory = same.memory; buffer = same.buffer; registers = same.registers }
  Leaves-SameData breaks off = record { memory = refl; buffer = refl; registers = refl }

-- While execution is disabled, a round of the loop that does not panic changes neither memory
-- nor buffer nor registers.
pub step-SameData :
    (be : BigEndian) (codeset : Bytes) (location : ℕ)
    → IsBytes codeset
    → (s : State) → last_or_true s.execution_stack ≡ false
    → Post (After (SameData s)) (step be codeset location s)
step-SameData be codeset location bytes s off =
    Post-mono (step-Leaves be location codeset bytes s) λ c h. Leaves-SameData be location h off
