-- ===== src/WiiMemory/Roundtrip.antt =====
-- Words of src/wii_memory.rs written and read back.
use brawllib_rs.Prelude.{ℕ, ◌+◌, ◌^◌, ◌<◌, ◌≤◌, ◌≡◌, ◌⊎◌, refl, ◌∙◌, ap, arith}
use brawllib_rs.Outcome.{ok, ◌>>=◌}
use brawllib_rs.Bytes.{BigEndian}
use brawllib_rs.Bytes.Words.{word_at, word_at-set_word}
use brawllib_rs.WiiMemory.{WiiMemory, write_u32, read_u32, read_u8}
use brawllib_rs.WiiMemory.View.{IsWii, view, HasRoom}
use brawllib_rs.WiiMemory.Access.{write_u32-view, read_u32-view, read_u8-view}

module _ (be : BigEndian) {m : WiiMemory} (wii : IsWii m) (a v : ℕ) (room : HasRoom a 4) where
  -- A word written inside one memory is read back at its address, and a byte at any other mapped
  -- address is what it was.
  pub read-write_u32 :
      v < 2 ^ 32
      → ((write_u32 be m a v >>= λ m'. read_u32 be m' a) ≡ ok v)
        × ((b : ℕ)
            → HasRoom b 1
            → (b < a) ⊎ (a + 4 ≤ b)
            → (write_u32 be m a v >>= λ m'. read_u8 m' b) ≡ read_u8 m b)
  read-write_u32 small =
      let (m', written, wii', edit) = write_u32-view be wii a v room in
      let word : word_at (view m') a ≡ v = omega (
        arith,
        edit a,
        edit (a + 1),
        edit (a + 2),
        edit (a + 3),
        word_at-set_word (view m) a v small,
      ) in
      rw written (
        read_u32-view be wii' a room ∙ ap ok word,
        λ b here apart.
            let same : view m' b ≡ view m b = ground (arith, edit b) in
            rw (read_u8-view wii' b here, read_u8-view wii b here, same) refl,
      )
