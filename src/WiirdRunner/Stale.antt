-- ===== src/WiirdRunner/Stale.antt =====
-- Code 44 of src/wiird_runner.rs writes to memory alone: where it hits the lent buffer, the buffer
-- is stale afterwards.
use brawllib_rs.Prelude.{ℕ, ◌+◌, ◌-◌, ◌^◌, ◌≤◌, ◌<◌, ◌≡◌, ◌≢◌, refl, ap, arith}
use brawllib_rs.Outcome.{ok}
use brawllib_rs.Bytes.{BigEndian}
use brawllib_rs.Bytes.Words.{word_at, word_at-set_word}
use brawllib_rs.WiiMemory.View.{view, HasRoom}
use brawllib_rs.WiiMemory.Access.{write_u32-view}
use brawllib_rs.WiirdRunner.State.{State}
use brawllib_rs.WiirdRunner.Address.{Operands, resolve, store_base}
use brawllib_rs.WiirdRunner.Mirror.{Mirrors}

-- A mirrored word of memory is the word of the buffer there.
buffer_word :
    (location a : ℕ) {s : State}
    → Mirrors location s
    → location ≤ a
    → a + 4 ≤ location + s.buffer.len
    → word_at s.buffer.at (a - location) ≡ word_at (view s.memory) a
buffer_word location a {s} mir lo hi = omega (
  arith,
  byte 0 (omega arith),
  byte 1 (omega arith),
  byte 2 (omega arith),
  byte 3 (omega arith),
  first,
  here,
)
  where
    byte : (j : ℕ) → j < 4 → view s.memory (a + j) ≡ s.buffer.at (a - location + j)
    byte j h =
        let e : location + (a - location + j) ≡ a + j = omega arith in
        rw e at (mir.same (a - location + j) (omega arith))

    first : view s.memory (a + 0) ≡ view s.memory a
    first = ap (view s.memory) (omega arith)

    here : s.buffer.at (a - location + 0) ≡ s.buffer.at (a - location)
    here = ap s.buffer.at (omega arith)

-- Code 44 at an address inside the buffer, where the buffer holds another word than the base
-- address, succeeds and leaves a buffer that is no longer what memory holds at its place.
pub store_base-not-Mirrors :
    (be : BigEndian) (location a : ℕ) (o : Operands) (s : State)
    → Mirrors location s
    → s.base_address < 2 ^ 32
    → resolve o s ≡ ok a
    → location ≤ a
    → a + 4 ≤ location + s.buffer.len
    → word_at s.buffer.at (a - location) ≢ s.base_address
    → (t : State) × (store_base be o s ≡ ok t) × ¬ Mirrors location t
unfolding store_base
store_base-not-Mirrors be location a o s mir base at lo hi differs =
    let room : HasRoom a 4 = omega (arith, mir.room) in
    let (m, written, wii, edit) = write_u32-view be mir.wii a s.base_address room in
    (
      record s { memory = m },
      rw (at, written) refl,
      λ mir'. differs (
          omega (
            arith,
            buffer_word location a mir' lo hi,
            edit a,
            edit (a + 1),
            edit (a + 2),
            edit (a + 3),
            word_at-set_word (view s.memory) a s.base_address base,
          )),
    )
