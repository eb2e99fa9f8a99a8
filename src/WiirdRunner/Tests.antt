-- ===== src/WiirdRunner/Tests.antt =====
-- Runs of src/wiird_runner.rs on small codesets, and its theorems at concrete inputs.
use brawllib_rs.Prelude.{
  ℕ, inl, zero, suc, ◌+◌, ◌%◌, ◌<◌, ◌≡◌, refl, true, false, not, List, [], ◌∷◌, Option, none, some,
  if◌then◌else◌, arith,
}
use brawllib_rs.Outcome.{Ends, Outcome, ok, panic, Post, add_u32}
use brawllib_rs.Bytes.{Bytes, get, put, slice_from, u16_at, u32_at}
use brawllib_rs.Bytes.Reference.{big_endian, bytes_of, bytes_of-IsBytes}
use brawllib_rs.Bytes.Words.{IsBytes}
use brawllib_rs.WiiMemory.{new, region, write_u8}
use brawllib_rs.WiiMemory.View.{view}
use brawllib_rs.WiiMemory.Invariant.{new-IsWii}
use brawllib_rs.Wiird.Code.{test_bit, mask_code, classify}
use brawllib_rs.Wiird.Operand.{no_address}
use brawllib_rs.WiirdRunner.State.{State, Line, next, last_or_true, when, advance, target}
use brawllib_rs.WiirdRunner.Fill.{in_buffer, mirror, store8, fill8, write_and_fill8}
use brawllib_rs.WiirdRunner.Condition.{endif}
use brawllib_rs.WiirdRunner.Address.{Operands, resolve, store_base}
use brawllib_rs.WiirdRunner.Step.{handle, step, run, load_buffer, start, process}
use brawllib_rs.WiirdRunner.Dispatch.{code_at}
use brawllib_rs.WiirdRunner.FillLine.{Fills, filled, count, step-Fills}
use brawllib_rs.WiirdRunner.TestLine.{opened, below, step-opens}
use brawllib_rs.WiirdRunner.Loop.{After}
use brawllib_rs.WiirdRunner.Valid.{IsValid}
use brawllib_rs.WiirdRunner.Preserve.{process-Ends}
use brawllib_rs.WiirdRunner.Disabled.{SameData, step-SameData}
use brawllib_rs.WiirdRunner.Jump.{step-goto}
use brawllib_rs.WiirdRunner.Nesting.{endif-closes}
use brawllib_rs.WiirdRunner.Mirror.{Mirrors}
use brawllib_rs.WiirdRunner.Coherence.{IsMirroredCode, process-Mirrors}
use brawllib_rs.WiirdRunner.Stale.{store_base-not-Mirrors}

-- What a run leaves: the buffer's first bytes, or nothing if it panics or does not end.
shown : ℕ → Option (Outcome State) → List ℕ
shown n none = []
shown n (some panic) = []
shown n (some (ok s)) = go n 0
  where
    go : ℕ → ℕ → List ℕ
    go zero i = []
    go (suc k) i = s.buffer.at i ∷ go k (i + 1)

-- 00: three bytes of 7 from offset 1 of the buffer, which lies at the base address.
abbrev fill_line : List ℕ
fill_line = 0x00 ∷ 0x00 ∷ 0x00 ∷ 0x01 ∷ 0x00 ∷ 0x02 ∷ 0x00 ∷ 0x07 ∷ []

fill_run :
    shown 5
      (process big_endian (bytes_of fill_line) (bytes_of (1 ∷ 1 ∷ 1 ∷ 1 ∷ 1 ∷ [])) 0x8000_0000)
    ≡ 1 ∷ 7 ∷ 7 ∷ 7 ∷ 1 ∷ []
unfolding shown process run step handle load_buffer start new region write_u8 get put slice_from
    u32_at u16_at mask_code classify test_bit last_or_true write_and_fill8 target when fill8 store8
    mirror in_buffer add_u32 advance
fill_run = refl

abbrev buffer : Bytes
buffer = bytes_of (1 ∷ 1 ∷ 1 ∷ 1 ∷ 1 ∷ [])

fill_line-IsBytes : IsBytes (bytes_of fill_line)
fill_line-IsBytes = bytes_of-IsBytes fill_line (omega arith)

buffer-IsBytes : IsBytes buffer
buffer-IsBytes = bytes_of-IsBytes (1 ∷ 1 ∷ 1 ∷ 1 ∷ 1 ∷ []) (omega arith)

process-Ends_example : Ends (IsValid 5) (process big_endian (bytes_of fill_line) buffer 0x8000_0000)
process-Ends_example =
    process-Ends big_endian (bytes_of fill_line) buffer 0x8000_0000 fill_line-IsBytes buffer-IsBytes

fill_line-IsMirrored : (k : ℕ) → k < 8 → k % 8 ≡ 0 → IsMirroredCode (code_at (bytes_of fill_line) k)
unfolding mask_code classify
fill_line-IsMirrored zero h e = tt
fill_line-IsMirrored (suc k) h e = absurd (omega arith)

process-Mirrors_example :
    Ends (Mirrors 0x8000_0000) (process big_endian (bytes_of fill_line) buffer 0x8000_0000)
process-Mirrors_example =
    process-Mirrors big_endian (bytes_of fill_line) buffer 0x8000_0000 fill_line-IsBytes
      buffer-IsBytes (omega arith) fill_line-IsMirrored

abbrev at_start : State
at_start = record {
  memory = new;
  buffer = record { len = 8; at = λ _. 0 };
  gecko_registers = 0 ∷ [];
  base_address = 0x8000_0000;
  pointer_address = 0x8000_0000;
  execution_stack = [];
  offset = 0;
}

step-Fills_example :
    (t : State) × (step big_endian (bytes_of fill_line) 0x8000_0000 at_start
      ≡ ok (next (record t { offset = 8 })))
    × Fills 0x8000_0000
        (filled big_endian (bytes_of fill_line) 0x8000_0000 at_start)
        (filled big_endian (bytes_of fill_line) 0x8000_0000 at_start
          + count big_endian (bytes_of fill_line) 0x8000_0000 at_start)
        7
        at_start
        t
unfolding last_or_true
step-Fills_example =
    step-Fills big_endian (bytes_of fill_line) 0x8000_0000 at_start new-IsWii
      (inl (omega arith, omega arith)) fill_line-IsBytes (refl, refl) refl (omega arith)
      (inl (omega arith, omega arith))

abbrev disabled : State
disabled = record at_start { execution_stack = false ∷ true ∷ [] }

step-SameData_example :
    Post (After (SameData disabled)) (step big_endian (bytes_of fill_line) 0x8000_0000 disabled)
unfolding last_or_true
step-SameData_example =
    step-SameData big_endian (bytes_of fill_line) 0x8000_0000 fill_line-IsBytes disabled refl

zeros-Mirrors : Mirrors 0x8000_0000 at_start
unfolding new view region
zeros-Mirrors = record { wii = new-IsWii; room = omega arith; same = λ i h. ground arith }

abbrev store_operands : Operands
store_operands = record {
  add_result = false;
  add = no_address;
  add_gecko_register = none;
  value = 0x8000_0004;
}

store_base-not-Mirrors_example :
    (t : State) × (store_base big_endian store_operands at_start ≡ ok t) × ¬ Mirrors 0x8000_0000 t
unfolding resolve
store_base-not-Mirrors_example =
    store_base-not-Mirrors big_endian 0x8000_0000 0x8000_0004 store_operands at_start zeros-Mirrors
      (omega arith) refl (omega arith) (omega arith) (omega arith)

abbrev goto_line : List ℕ
goto_line = 0x66 ∷ 0x20 ∷ 0xFF ∷ 0xFE ∷ 0x00 ∷ 0x00 ∷ 0x00 ∷ 0x00 ∷ []

abbrev line : Line
line = record { use_base_address = true; address = 0; execute = true }

-- The half word after the flag is negative.
step-goto_example : step big_endian (bytes_of goto_line) 0x8000_0000 at_start ≡ panic
step-goto_example =
    step-goto big_endian (bytes_of goto_line) 0x8000_0000 at_start
      (bytes_of-IsBytes goto_line (omega arith)) (refl, refl) (omega arith)

abbrev endif_line : List ℕ
endif_line = 0xE2 ∷ 0x10 ∷ 0x00 ∷ 0x01 ∷ 0x00 ∷ 0x00 ∷ 0x00 ∷ 0x00 ∷ []

endif-closes_example :
    Post
      (After λ t.
        t.execution_stack
        ≡ (if test_bit 0x10 4 then not (last_or_true (true ∷ [])) ∷ true ∷ [] else true ∷ []))
      (endif big_endian (bytes_of endif_line) line disabled)
unfolding get
endif-closes_example =
    endif-closes big_endian (bytes_of endif_line) line disabled (false ∷ []) (true ∷ []) 0x10 refl
      refl refl

-- 22: is the word at the base address not 5?
abbrev test_line : List ℕ
test_line = 0x22 ∷ 0x00 ∷ 0x00 ∷ 0x00 ∷ 0x00 ∷ 0x00 ∷ 0x00 ∷ 0x05 ∷ []

step-opens_example :
    step big_endian (bytes_of test_line) 0x8000_0000 at_start
    ≡ ok (
        next (record at_start {
          offset = 8;
          execution_stack =
              opened (bytes_of test_line) at_start ∷ below (bytes_of test_line) at_start;
        }))
step-opens_example =
    step-opens big_endian (bytes_of test_line) 0x8000_0000 at_start new-IsWii refl (omega arith)
      (inl (omega arith, omega arith))
