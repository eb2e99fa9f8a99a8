-- ===== src/WiirdRunner/Preserve.antt =====
-- Every round of the loop of src/wiird_runner.rs keeps the invariant, and so does `process`.
use brawllib_rs.Prelude.{ℕ, zero, suc, ◌+◌, ◌≡◌, refl, Bool, ◌∷◌, some, arith}
use brawllib_rs.Outcome.{
  Ends, Outcome, ok, panic, Post, returns, panics, Post-ok, Post-bind, Post-then, Post-mono,
}
use brawllib_rs.Bytes.{Bytes, BigEndian}
use brawllib_rs.Bytes.Words.{IsBytes}
use brawllib_rs.WiiMemory.{WiiMemory}
use brawllib_rs.WiiMemory.View.{IsWii}
use brawllib_rs.WiiMemory.Invariant.{new-IsWii, write_u8-IsWii, write_u32-IsWii, read_u32-lt}
use brawllib_rs.Wiird.Code.{Code}
use brawllib_rs.Wiird.Operand.{AddAddress}
use brawllib_rs.WiirdRunner.State.{State, Control}
use brawllib_rs.WiirdRunner.Address.{
  Operands, resolve, load_base, load_pointer, store_base, store_pointer, set_base, set_pointer,
}
use brawllib_rs.WiirdRunner.Register.{set_register}
use brawllib_rs.WiirdRunner.Step.{step, run, load_buffer, start, process}
use brawllib_rs.WiirdRunner.Effect.{
  Act, IsAct, perform, Effect, idle, acts, tests, resets, Leaves, moves, breaks,
}
use brawllib_rs.WiirdRunner.Dispatch.{step-Leaves}
use brawllib_rs.WiirdRunner.Frame.{perform-SameFlow}
use brawllib_rs.WiirdRunner.Loop.{After, Advances, run-Ends}
use brawllib_rs.WiirdRunner.Valid.{
  IsU32, IsValid, with_memory, with_base, with_pointer, with_register, with_flow, add_to-lt,
  resolve-lt, accumulate-lt, reset_high-lt, fill8-IsValid, write_string-IsValid, fill16-IsValid,
  fill32-IsValid,
}

module _ {size : ℕ} {s : State} (valid : IsValid size s) where
  set_base-IsValid : (o : Operands) → IsU32 o.value → Post (IsValid size) (set_base o s)
  unfolding set_base
  set_base-IsValid o h = Post-bind (resolve-lt valid o h) λ v hv.
      Post-bind (accumulate-lt o.add_result s.base_address hv) λ b hb. returns (with_base valid hb)

  set_pointer-IsValid : (o : Operands) → IsU32 o.value → Post (IsValid size) (set_pointer o s)
  unfolding set_pointer
  set_pointer-IsValid o h = Post-bind (resolve-lt valid o h) λ v hv.
      Post-bind (accumulate-lt o.add_result s.pointer_address hv)
        λ b hb. returns (with_pointer valid hb)

  set_register-IsValid :
      (b : Bool) (add : AddAddress) (r : ℕ) {v : ℕ}
      → IsU32 v
      → Post (IsValid size) (set_register b add r v s)
  unfolding set_register
  set_register-IsValid b add r {v} h = Post-bind (add_to-lt valid add h) λ v' hv.
      Post-then _
        λ old. Post-bind (accumulate-lt b old hv) λ w hw. returns (with_register valid r hw)

  module _ (be : BigEndian) (o : Operands) where
    load_base-IsValid : Post (IsValid size) (load_base be o s)
    unfolding load_base
    load_base-IsValid = Post-then (resolve o s) λ a.
        Post-bind (read_u32-lt be valid.memory a) λ v hv.
          Post-bind (accumulate-lt o.add_result s.base_address hv)
            λ b hb. returns (with_base valid hb)

    load_pointer-IsValid : Post (IsValid size) (load_pointer be o s)
    unfolding load_pointer
    load_pointer-IsValid = Post-then (resolve o s) λ a.
        Post-bind (read_u32-lt be valid.memory a) λ v hv.
          Post-bind (accumulate-lt o.add_result s.pointer_address hv)
            λ b hb. returns (with_pointer valid hb)

    store_base-IsValid : Post (IsValid size) (store_base be o s)
    unfolding store_base
    store_base-IsValid = Post-then (resolve o s) λ a.
        Post-bind (write_u32-IsWii be valid.memory a s.base_address)
          λ m h. returns (with_memory valid h)

    store_pointer-IsValid : Post (IsValid size) (store_pointer be o s)
    unfolding store_pointer
    store_pointer-IsValid = Post-then (resolve o s) λ a.
        Post-bind (write_u32-IsWii be valid.memory a s.pointer_address)
          λ m h. returns (with_memory valid h)

-- No effect moves the offset.
pub Effect-offset :
    (be : BigEndian) (location : ℕ) {code : Code} {s t : State}
    → Effect be location code s t
    → t.offset ≡ s.offset
Effect-offset be location idle = refl
Effect-offset be location {s} (acts act for fits on done) =
    (Post-ok (rw done at (perform-SameFlow be location act s))).offset
Effect-offset be location (tests flag stack is from) = refl
Effect-offset be location (resets base pointer stack is hb hp) = refl

module _ (be : BigEndian) (location : ℕ) {size : ℕ} where
  -- Every act keeps the invariant.
  pub perform-IsValid :
      (act : Act) {s : State}
      → IsAct act
      → IsValid size s
      → Post (IsValid size) (perform be location act s)
  unfolding perform
  perform-IsValid (Act.fill8 n a v) h valid = fill8-IsValid location n a 0 h valid
  perform-IsValid (Act.fill16 n a v) h valid = fill16-IsValid be location n a v 0 valid
  perform-IsValid (Act.fill32 a v) h valid = fill32-IsValid be location a v valid
  perform-IsValid (Act.write_string vs a) h valid = write_string-IsValid location vs a 0 h valid
  perform-IsValid (Act.load_base o) h valid = load_base-IsValid valid be o
  perform-IsValid (Act.load_pointer o) h valid = load_pointer-IsValid valid be o
  perform-IsValid (Act.set_base o) h valid = set_base-IsValid valid o h
  perform-IsValid (Act.set_pointer o) h valid = set_pointer-IsValid valid o h
  perform-IsValid (Act.store_base o) h valid = store_base-IsValid valid be o
  perform-IsValid (Act.store_pointer o) h valid = store_pointer-IsValid valid be o
  perform-IsValid Act.clear_base h valid = returns (with_base valid (omega arith))
  perform-IsValid Act.clear_pointer h valid = returns (with_pointer valid (omega arith))
  perform-IsValid (Act.set_register b add r v) h valid = set_register-IsValid valid b add r h.1

  Effect-IsValid :
      {code : Code} {s t : State} → Effect be location code s t → IsValid size s → IsValid size t
  Effect-IsValid idle valid = valid
  Effect-IsValid (acts act for fits on done) valid =
      Post-ok (rw done at (perform-IsValid act fits valid))
  Effect-IsValid {s} (tests flag stack is from) valid = with_flow valid (flag ∷ stack) s.offset
  Effect-IsValid {s} (resets base pointer stack is hb hp) valid =
      with_flow
        (with_pointer (with_base valid (reset_high-lt base hb valid.base))
          (reset_high-lt pointer hp valid.pointer))
        stack s.offset

  Leaves-IsValid :
      {code : Code} {s : State} {c : Control}
      → Leaves be location code s c
      → IsValid size s
      → After (IsValid size) c × Advances s c
  Leaves-IsValid (moves {t} n e h) valid = (
    with_flow (Effect-IsValid e valid) t.execution_stack (t.offset + n),
    omega (arith, Effect-offset be location e),
  )
  Leaves-IsValid breaks valid = (valid, tt)

-- A round of the loop keeps the invariant, and moves the offset by 8 bytes or more if it goes on.
pub step-IsValid :
    (be : BigEndian) (codeset : Bytes) (location : ℕ)
    → IsBytes codeset
    → {size : ℕ} (s : State) → IsValid size s
    → Post (λ c. After (IsValid size) c × Advances s c) (step be codeset location s)
step-IsValid be codeset location bytes s valid =
    Post-mono (step-Leaves be location codeset bytes s) λ c h. Leaves-IsValid be location h valid

load_buffer-IsWii :
    (n location i : ℕ) (buffer : Bytes) {m : WiiMemory}
    → IsBytes buffer
    → IsWii m
    → Post IsWii (load_buffer n location i buffer m)
unfolding load_buffer
load_buffer-IsWii zero location i buffer bytes wii = returns wii
load_buffer-IsWii (suc n) location i buffer bytes wii =
    Post-bind (write_u8-IsWii wii (location + i) (bytes i))
      λ m h. load_buffer-IsWii n location (i + 1) buffer bytes h

start-IsValid :
    (buffer : Bytes) {m : WiiMemory}
    → IsBytes buffer
    → IsWii m
    → IsValid buffer.len (start buffer m)
unfolding start
start-IsValid buffer bytes wii = record {
  memory = wii;
  buffer = bytes;
  len = refl;
  count = refl;
  registers = omega arith;
  base = omega arith;
  pointer = omega arith;
}

process_from-Ends :
    (be : BigEndian) (codeset buffer : Bytes) (location : ℕ)
    → IsBytes codeset
    → IsBytes buffer
    → {loaded : Outcome WiiMemory} → Post IsWii loaded
    → Ends (IsValid buffer.len) (elim loaded [
      | panic ↦ some panic
      | ok memory ↦ run be codeset location (codeset.len + 1) (start buffer memory)
    ])
unfolding start
process_from-Ends be codeset buffer location code bytes panics = (panic, refl, panics)
process_from-Ends be codeset buffer location code bytes (returns {a = m} wii) =
    run-Ends be codeset location (IsValid buffer.len)
      (λ s valid _. step-IsValid be codeset location code s valid) (codeset.len + 1)
      (start buffer m) (omega arith) (omega arith) (start-IsValid buffer bytes wii)

-- `process` ends on every codeset and buffer. If it does not panic, the memories keep their sizes,
-- the buffer its length, there are 16 registers, and bytes, registers and addresses are in range.
pub process-Ends :
    (be : BigEndian) (codeset buffer : Bytes) (location : ℕ)
    → IsBytes codeset
    → IsBytes buffer
    → Ends (IsValid buffer.len) (process be codeset buffer location)
unfolding process
process-Ends be codeset buffer location code bytes =
    process_from-Ends be codeset buffer location code bytes
      (load_buffer-IsWii buffer.len location 0 buffer bytes new-IsWii)
