-- ===== src/WiirdRunner/Coherence.antt =====
-- Which acts of src/wiird_runner.rs keep the lent buffer and the memory alike, and that the copy
-- at the start of `process` makes them so.
use brawllib_rs.Prelude.{ℕ, zero, suc, ◌+◌, ◌%◌, ◌<◌, ◌≡◌, refl, Bool, arith}
use brawllib_rs.Outcome.{Ends, ok, Post, returns, Post-ok, Post-then, Post-mono}
use brawllib_rs.Bytes.{Bytes, BigEndian}
use brawllib_rs.Bytes.Words.{IsBytes}
use brawllib_rs.WiiMemory.{WiiMemory, new, read_u32}
use brawllib_rs.WiiMemory.View.{IsWii, view, HasRoom}
use brawllib_rs.WiiMemory.Access.{write_u8-view}
use brawllib_rs.WiiMemory.Invariant.{new-IsWii}
use brawllib_rs.Wiird.Code.{Code}
use brawllib_rs.Wiird.Operand.{AddAddress}
use brawllib_rs.WiirdRunner.State.{State, Control}
use brawllib_rs.WiirdRunner.Address.{
  Operands, add_to, resolve, accumulate, load_base, load_pointer, set_base, set_pointer,
}
use brawllib_rs.WiirdRunner.Register.{set_register}
use brawllib_rs.WiirdRunner.Step.{load_buffer, start, process}
use brawllib_rs.WiirdRunner.Effect.{
  Act, IsAct, IsFor, perform, Effect, idle, acts, tests, resets, Leaves, moves, breaks,
}
use brawllib_rs.WiirdRunner.Dispatch.{code_at, step-Leaves}
use brawllib_rs.WiirdRunner.Loop.{After, Advances, run-Ends}
use brawllib_rs.WiirdRunner.Preserve.{Effect-offset}
use brawllib_rs.WiirdRunner.Mirror.{Mirrors, fill8-Mirrors, write_string-Mirrors, fill32-Mirrors}

-- The acts other than those of 02, 44 and 4C.
abbrev pub IsMirrored : Act → Type 0
IsMirrored (Act.fill16 n a v) = ⊥
IsMirrored (Act.store_base o) = ⊥
IsMirrored (Act.store_pointer o) = ⊥
IsMirrored _ = Unit

-- Memory and buffer are those of `s`.
SameBytes : State → State → Type 0
SameBytes s t = (t.memory ≡ s.memory) × (t.buffer ≡ s.buffer)

module _ (s : State) where
  set_register-SameBytes :
      (b : Bool) (add : AddAddress) (r v : ℕ) → Post (SameBytes s) (set_register b add r v s)
  unfolding set_register SameBytes
  set_register-SameBytes b add r v =
      Post-then (add_to add s v)
        λ v'. Post-then _ λ old. Post-then (accumulate b old v') λ w. returns (refl, refl)

  module _ (o : Operands) where
    set_base-SameBytes : Post (SameBytes s) (set_base o s)
    unfolding set_base SameBytes
    set_base-SameBytes =
        Post-then (resolve o s)
          λ v. Post-then (accumulate o.add_result s.base_address v) λ b. returns (refl, refl)

    set_pointer-SameBytes : Post (SameBytes s) (set_pointer o s)
    unfolding set_pointer SameBytes
    set_pointer-SameBytes =
        Post-then (resolve o s)
          λ v. Post-then (accumulate o.add_result s.pointer_address v) λ b. returns (refl, refl)

    load_base-SameBytes : (be : BigEndian) → Post (SameBytes s) (load_base be o s)
    unfolding load_base SameBytes
    load_base-SameBytes be = Post-then (resolve o s) λ a.
        Post-then (read_u32 be s.memory a)
          λ v. Post-then (accumulate o.add_result s.base_address v) λ b. returns (refl, refl)

    load_pointer-SameBytes : (be : BigEndian) → Post (SameBytes s) (load_pointer be o s)
    unfolding load_pointer SameBytes
    load_pointer-SameBytes be = Post-then (resolve o s) λ a.
        Post-then (read_u32 be s.memory a)
          λ v. Post-then (accumulate o.add_result s.pointer_address v) λ b. returns (refl, refl)

module _ (be : BigEndian) (location : ℕ) where
  SameBytes-Mirrors : {s t : State} → Mirrors location s → SameBytes s t → Mirrors location t
  unfolding SameBytes
  SameBytes-Mirrors {s} {t} mir (m, b) = record {
    wii = rw m mir.wii;
    room = rw b mir.room;
    same = λ i h. rw (m, b) (mir.same i (rw b at h));
  }

  -- The writes of 00, 04 and 06, and the acts that leave memory and buffer alone, keep the buffer
  -- a mirror of its place in memory.
  perform-Mirrors :
      (act : Act) {s : State}
      → IsAct act
      → IsMirrored act
      → Mirrors location s
      → Post (Mirrors location) (perform be location act s)
  unfolding perform
  perform-Mirrors (Act.fill8 n a v) h k mir = fill8-Mirrors be location n a 0 h mir
  perform-Mirrors (Act.fill16 n a v) h k mir = absurd k
  perform-Mirrors (Act.fill32 a v) h k mir = fill32-Mirrors location a mir be v
  perform-Mirrors (Act.write_string vs a) h k mir = write_string-Mirrors be location vs a 0 h mir
  perform-Mirrors (Act.store_base o) h k mir = absurd k
  perform-Mirrors (Act.store_pointer o) h k mir = absurd k
  perform-Mirrors (Act.load_base o) {s} h k mir =
      Post-mono (load_base-SameBytes s o be) λ t. SameBytes-Mirrors mir
  perform-Mirrors (Act.load_pointer o) {s} h k mir =
      Post-mono (load_pointer-SameBytes s o be) λ t. SameBytes-Mirrors mir
  perform-Mirrors (Act.set_base o) {s} h k mir =
      Post-mono (set_base-SameBytes s o) λ t. SameBytes-Mirrors mir
  perform-Mirrors (Act.set_pointer o) {s} h k mir =
      Post-mono (set_pointer-SameBytes s o) λ t. SameBytes-Mirrors mir
  perform-Mirrors (Act.set_register b add r v) {s} h k mir =
      Post-mono (set_register-SameBytes s b add r v) λ t. SameBytes-Mirrors mir
  perform-Mirrors Act.clear_base h k mir =
      returns (record { wii = mir.wii; room = mir.room; same = mir.same })
  perform-Mirrors Act.clear_pointer h k mir =
      returns (record { wii = mir.wii; room = mir.room; same = mir.same })

module _ (location : ℕ) (buffer : Bytes) (bytes : IsBytes buffer)
    (room : HasRoom location buffer.len) where
  -- The first `n` bytes of the buffer are in memory.
  record Copied (n : ℕ) (m : WiiMemory) : Type 0 where
    wii : IsWii m
    same : (j : ℕ) → j < n → view m (location + j) ≡ buffer.at j

  load_buffer-Copied :
      (n i : ℕ) {m : WiiMemory}
      → n + i ≡ buffer.len
      → Copied i m
      → (m' : WiiMemory) × (load_buffer n location i buffer m ≡ ok m') × Copied buffer.len m'
  unfolding load_buffer
  load_buffer-Copied zero i {m} e c =
      (m, refl, record { wii = c.wii; same = λ j h. c.same j (omega arith) })
  load_buffer-Copied (suc n) i e c =
      let here : HasRoom (location + i) 1 = omega arith in
      let (m, written, wii, edit) =
        write_u8-view c.wii (location + i) (buffer.at i) (bytes i) here in
      rw written (
        load_buffer-Copied n (i + 1) (omega arith)
          (record { wii = wii; same = λ j h. ground (arith, edit (location + j), c.same j) }))

  -- When the buffer fits in one memory at `location`, the copy at the start of `process` does not
  -- panic, and the loop starts with the buffer a mirror of its place in memory.
  start-Mirrors :
      (m : WiiMemory) × (load_buffer buffer.len location 0 buffer new ≡ ok m)
      × Mirrors location (start buffer m)
  unfolding start
  start-Mirrors =
      let empty : Copied 0 new = record { wii = new-IsWii; same = λ j h. elim h [ ] } in
      let (m, loaded, c) = load_buffer-Copied buffer.len 0 (omega arith) empty in
      (m, loaded, record { wii = c.wii; room = room; same = c.same })

-- The codes other than 02, 44 and 4C.
abbrev pub IsMirroredCode : Code → Type 0
IsMirroredCode Code.write_and_fill16 = ⊥
IsMirroredCode Code.store_base_address = ⊥
IsMirroredCode Code.store_pointer_address = ⊥
IsMirroredCode _ = Unit

-- Only 02, 44 and 4C do the acts that are not mirrored.
IsFor-IsMirrored : (code : Code) (act : Act) → IsFor code act → IsMirroredCode code → IsMirrored act
IsFor-IsMirrored Code.write_and_fill16 (Act.fill16 n a v) for k = k
IsFor-IsMirrored Code.store_base_address (Act.store_base o) for k = k
IsFor-IsMirrored Code.store_pointer_address (Act.store_pointer o) for k = k
IsFor-IsMirrored _ (Act.fill16 n a v) for k = for
IsFor-IsMirrored _ (Act.store_base o) for k = for
IsFor-IsMirrored _ (Act.store_pointer o) for k = for
IsFor-IsMirrored _ _ for k = tt

-- The buffer mirrors memory, and the offset is at the start of a line.
record IsCoherent (location : ℕ) (s : State) : Type 0 where
  mirrors : Mirrors location s
  aligned : s.offset % 8 ≡ 0

module _ (be : BigEndian) (location : ℕ) {code : Code} (mirrored : IsMirroredCode code) where
  Effect-Mirrors :
      {s t : State} → Effect be location code s t → Mirrors location s → Mirrors location t
  Effect-Mirrors idle mir = mir
  Effect-Mirrors (acts act for fits on done) mir = Post-ok (
      rw done at
        (perform-Mirrors be location act fits (IsFor-IsMirrored code act for mirrored) mir))
  Effect-Mirrors (tests flag stack is from) mir = record {
    wii = mir.wii;
    room = mir.room;
    same = mir.same;
  }
  Effect-Mirrors (resets base pointer stack is hb hp) mir = record {
    wii = mir.wii;
    room = mir.room;
    same = mir.same;
  }

  Leaves-IsCoherent :
      {s : State} {c : Control}
      → Leaves be location code s c
      → IsCoherent location s
      → After (IsCoherent location) c × Advances s c
  Leaves-IsCoherent (moves n e h) c =
      let mir = Effect-Mirrors e c.mirrors in
      let stays = Effect-offset be location e in
      (
        record {
          mirrors = record { wii = mir.wii; room = mir.room; same = mir.same };
          aligned = omega (arith, h.1, c.aligned);
        },
        omega (arith, h.0),
      )
  Leaves-IsCoherent breaks c = (c, tt)

-- If no line of the codeset is of 02, 44 or 4C and the buffer fits in one memory at its location,
-- `process` ends, and if it does not panic, the buffer is again what memory holds at its place.
pub process-Mirrors :
    (be : BigEndian) (codeset buffer : Bytes) (location : ℕ)
    → IsBytes codeset
    → IsBytes buffer
    → HasRoom location buffer.len
    → ((k : ℕ) → k < codeset.len → k % 8 ≡ 0 → IsMirroredCode (code_at codeset k))
    → Ends (Mirrors location) (process be codeset buffer location)
unfolding process start
process-Mirrors be codeset buffer location code bytes room mirrored =
    let (m, loaded, mir) = start-Mirrors location buffer bytes room in
    let ends =
      run-Ends be codeset location (IsCoherent location)
        (λ s c inside.
          Post-mono (step-Leaves be location codeset code s)
            λ d leaves. Leaves-IsCoherent be location (mirrored s.offset inside c.aligned) leaves c)
        (codeset.len + 1) (start buffer m) (omega arith) (omega arith)
        (record { mirrors = mir; aligned = refl }) in
    rw (loaded, process) (ends.0, ends.1, Post-mono ends.2 λ t c. c.mirrors)
