-- ===== src/WiirdRunner/Mirror.antt =====
-- The buffer that the caller lends to src/wiird_runner.rs mirrors its place in memory: the codes
-- 00, 04 and 06 keep it so.
use brawllib_rs.Prelude.{
  ℕ, zero, suc, ◌+◌, ◌-◌, ◌<◌, ◌≡◌, inl, inr, Bool, true, false, ◌&&◌, List, [], ◌∷◌, ltb, leb,
  arith, Bool-cases, All,
}
use brawllib_rs.Outcome.{ok, ◌>>=◌, add_u32, Post, returns, panics, Post-bind, Post-then}
use brawllib_rs.Bytes.{Bytes, put, update, BigEndian, put_u32}
use brawllib_rs.Bytes.Words.{put_u32_lem}
use brawllib_rs.WiiMemory.{WiiMemory, write_u32}
use brawllib_rs.WiiMemory.View.{IsWii, view, HasRoom, IsUnmapped}
use brawllib_rs.WiiMemory.Access.{write_u8-view, write_u32-view}
use brawllib_rs.WiiMemory.Edge.{address_cases, access-unmapped}
use brawllib_rs.WiirdRunner.State.{State}
use brawllib_rs.WiirdRunner.Fill.{in_buffer, mirror, store8, fill8, write_string, fill32}

-- The buffer lies inside one memory, and has there the bytes of its own.
pub record Mirrors (location : ℕ) (s : State) : Type 0 where
  pub wii : IsWii s.memory
  pub room : HasRoom location s.buffer.len
  pub same : (i : ℕ) → i < s.buffer.len → view s.memory (location + i) ≡ s.buffer.at i

-- The test of an address against the buffer cannot overflow.
pub in_buffer_lem :
    (location a : ℕ) (b : Bytes)
    → HasRoom location b.len
    → in_buffer location a b ≡ ok (leb location a && ltb a (location + b.len))
unfolding in_buffer add_u32
in_buffer_lem location a b room = ground arith

-- An address where nothing is mapped lies outside the buffer.
outside_of_unmapped :
    (location a n : ℕ)
    → HasRoom location n
    → IsUnmapped a
    → (leb location a && ltb a (location + n)) ≡ false
outside_of_unmapped location a n room h = ground arith

module _ (location a : ℕ) {s : State} (mir : Mirrors location s) where
  abbrev inside : Bool
  inside = leb location a && ltb a (location + s.buffer.len)

  -- After the byte is in memory, the mirror puts it in the buffer.
  mirror-Mirrors :
      (v : ℕ) (m : WiiMemory)
      → IsWii m
      → ((b : ℕ) → view m b ≡ update (view s.memory) a v b)
      → Post (Mirrors location) (mirror (λ b k. put b k v) location a (record s { memory = m }))
  unfolding mirror put
  mirror-Mirrors v m wii edit =
      rw (in_buffer_lem location a s.buffer mir.room) (elim (Bool-cases inside) [
        | inl yes_inside ↦
            let fits : ltb (a - location) s.buffer.len ≡ true = ground arith in
            rw (yes_inside, fits)
              (returns (record {
                wii = wii;
                room = mir.room;
                same = λ i h. ground (arith, edit (location + i), mir.same i h);
              }))
        | inr outside ↦ rw outside (
            returns (record {
              wii = wii;
              room = mir.room;
              same = λ i h. ground (arith, edit (location + i), mir.same i h);
            }))
      ])

  store8_at-Mirrors :
      {v : ℕ} → v < 256 → HasRoom a 1 → Post (Mirrors location) (store8 location a v s)
  unfolding store8
  store8_at-Mirrors {v} hv room =
      let (m, written, wii, edit) = write_u8-view mir.wii a v hv room in
      rw written (mirror-Mirrors v m wii edit)

  store8_off-Mirrors :
      (be : BigEndian) (v : ℕ) → IsUnmapped a → Post (Mirrors location) (store8 location a v s)
  unfolding store8 mirror
  store8_off-Mirrors be v off =
      rw
        (
          (access-unmapped be s.memory a off v).0,
          in_buffer_lem location a s.buffer mir.room,
          outside_of_unmapped location a s.buffer.len mir.room off,
        )
        (returns mir)

  store8-Mirrors :
      (be : BigEndian) {v : ℕ} → v < 256 → Post (Mirrors location) (store8 location a v s)
  store8-Mirrors be {v} hv = elim (address_cases a 1 (omega arith)) [
    | inl room ↦ store8_at-Mirrors hv room
    | inr (inl cut) ↦ absurd (omega arith)
    | inr (inr off) ↦ store8_off-Mirrors be v off
  ]

  fill32_inside-Mirrors :
      (be : BigEndian) (v : ℕ)
      → inside ≡ true
      → Post (Mirrors location) (
          write_u32 be s.memory a v >>= λ m.
          put_u32 be s.buffer (a - location) v >>= λ b. ok (record s { memory = m; buffer = b }))
  fill32_inside-Mirrors be v yes_inside = elim (Bool-cases (leb (a - location + 4) s.buffer.len)) [
    | inl fits ↦
        let room : HasRoom a 4 = ground arith in
        let (m, written, wii, edit) = write_u32-view be mir.wii a v room in
        rw (written, put_u32_lem, fits)
          (returns (record {
            wii = wii;
            room = mir.room;
            same = λ i h. ground (arith, edit (location + i), mir.same i h);
          }))
    | inr short ↦ Post-then (write_u32 be s.memory a v) λ m. rw (put_u32_lem, short) panics
  ]

  pub fill32-Mirrors : (be : BigEndian) (v : ℕ) → Post (Mirrors location) (fill32 be location a v s)
  unfolding fill32
  fill32-Mirrors be v = rw (in_buffer_lem location a s.buffer mir.room) (elim (Bool-cases inside) [
    | inl yes_inside ↦ rw yes_inside (fill32_inside-Mirrors be v yes_inside)
    | inr outside ↦ rw outside (returns mir)
  ])

module _ (be : BigEndian) (location : ℕ) where
  pub fill8-Mirrors :
      (n a : ℕ) {v : ℕ} (i : ℕ) {s : State}
      → v < 256
      → Mirrors location s
      → Post (Mirrors location) (fill8 n location a v i s)
  unfolding fill8
  fill8-Mirrors zero a i hv mir = returns mir
  fill8-Mirrors (suc n) a i hv mir = Post-then (add_u32 a i) λ current.
      Post-bind (store8-Mirrors location current mir be hv) λ t. fill8-Mirrors n a (i + 1) hv

  pub write_string-Mirrors :
      (values : List ℕ) (a i : ℕ) {s : State}
      → All (λ v. v < 256) values
      → Mirrors location s
      → Post (Mirrors location) (write_string values location a i s)
  unfolding write_string
  write_string-Mirrors [] a i hs mir = returns mir
  write_string-Mirrors (v ∷ values) a i (hv, hs) mir = Post-then (add_u32 a i) λ current.
      Post-bind (store8-Mirrors location current mir be hv)
        λ t. write_string-Mirrors values a (i + 1) hs
