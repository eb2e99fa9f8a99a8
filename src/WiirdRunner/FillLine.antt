-- ===== src/WiirdRunner/FillLine.antt =====
-- Code 00 of src/wiird_runner.rs by the bytes of its line: which bytes it fills, in memory and in the
-- buffer.
use brawllib_rs.Prelude.{
  ℕ, zero, suc, ◌+◌, ◌-◌, ◌%◌, ◌^◌, ◌<◌, ◌≤◌, ◌≡◌, refl, ap, ◌∙◌, inl, inr, true, ◌&&◌, ltb, leb,
  if◌then◌else◌, arith, Bool-cases, lt→ltb,
}
use brawllib_rs.Outcome.{ok, add_u32}
use brawllib_rs.Bytes.{Bytes, get, put, update, BigEndian}
use brawllib_rs.Bytes.Words.{IsBytes, half_at, word_at, u16_at_lem}
use brawllib_rs.WiiMemory.{WiiMemory}
use brawllib_rs.WiiMemory.View.{IsWii, view, HasRoom}
use brawllib_rs.WiiMemory.Access.{write_u8-view}
use brawllib_rs.Wiird.Code.{classify}
use brawllib_rs.WiirdRunner.State.{State, Line, next, last_or_true, when, advance, target}
use brawllib_rs.WiirdRunner.Fill.{mirror, store8, fill8, write_and_fill8}
use brawllib_rs.WiirdRunner.Mirror.{in_buffer_lem}
use brawllib_rs.WiirdRunner.Step.{handle, step}
use brawllib_rs.WiirdRunner.Round.{IsNumber, place, target_lem, line_at, step-handle}

module _ (location : ℕ) where
  -- From `s` to `t` the addresses from `a` to before `b` get a byte, in memory and in the buffer where
  -- they lie in its place. All else is kept.
  pub record Fills (a b v : ℕ) (s t : State) : Type 0 where
    pub wii : IsWii t.memory
    pub memory : (c : ℕ) → view t.memory c ≡ (if leb a c && ltb c b then v else view s.memory c)
    pub len : t.buffer.len ≡ s.buffer.len
    pub buffer :
        (i : ℕ)
        → i < s.buffer.len
        → t.buffer.at i
          ≡ (if leb a (location + i) && ltb (location + i) b then v else s.buffer.at i)
    pub kept : t ≡ record s { memory = t.memory; buffer = t.buffer }

  mirror-Fills :
      (a v : ℕ) {s : State} (m : WiiMemory)
      → HasRoom location s.buffer.len
      → IsWii m
      → ((c : ℕ) → view m c ≡ update (view s.memory) a v c)
      → (t : State) × (mirror (λ b k. put b k v) location a (record s { memory = m }) ≡ ok t)
        × Fills a (a + 1) v s t
  unfolding mirror put
  mirror-Fills a v {s} m room wii edit =
      rw (in_buffer_lem location a s.buffer room)
        (elim (Bool-cases (leb location a && ltb a (location + s.buffer.len))) [
          | inl yes_inside ↦
              let fits : ltb (a - location) s.buffer.len ≡ true = ground arith in
              rw (yes_inside, fits)
                (
                  _,
                  refl,
                  record {
                    wii = wii;
                    memory = λ c. ground (arith, edit c);
                    len = refl;
                    buffer = λ i h. ground arith;
                    kept = refl;
                  },
                )
          | inr outside ↦ rw outside (
            _,
            refl,
            record {
              wii = wii;
              memory = λ c. ground (arith, edit c);
              len = refl;
              buffer = λ i h. ground arith;
              kept = refl;
            },
          )
        ])

  store8-Fills :
      (a v : ℕ) {s : State}
      → IsWii s.memory
      → HasRoom location s.buffer.len
      → v < 256
      → HasRoom a 1
      → (t : State) × (store8 location a v s ≡ ok t) × Fills a (a + 1) v s t
  unfolding store8
  store8-Fills a v wii lent hv room =
      let (m, written, wii', edit) = write_u8-view wii a v hv room in
      rw written (mirror-Fills a v m lent wii' edit)

  Fills-trans :
      {a b c v : ℕ} {s t u : State}
      → a ≤ b
      → b ≤ c
      → Fills a b v s t
      → Fills b c v t u
      → Fills a c v s u
  Fills-trans {a} {b} {c} {v} {s} {t} {u} lo hi f g = record {
    wii = g.wii;
    memory = λ d. ground (arith, f.memory d, g.memory d);
    len = g.len ∙ f.len;
    buffer = λ i h.
        let inside : i < t.buffer.len = omega (arith, h, f.len) in
        ground (arith, f.buffer i h, g.buffer i inside);
    kept = g.kept ∙ ap (λ (x : State). record x { memory = u.memory; buffer = u.buffer }) f.kept;
  }

  -- The loop of the arm, with the rounds that are left.
  fill8-Fills :
      (n a v i : ℕ) {s : State}
      → IsWii s.memory
      → HasRoom location s.buffer.len
      → v < 256
      → HasRoom (a + i) n
      → (t : State) × (fill8 n location a v i s ≡ ok t) × Fills (a + i) (a + i + n) v s t
  unfolding fill8 add_u32
  fill8-Fills zero a v i {s} wii lent hv room = (
    s,
    refl,
    record {
      wii = wii;
      memory = λ c. ground arith;
      len = refl;
      buffer = λ j h. ground arith;
      kept = refl;
    },
  )
  fill8-Fills (suc n) a v i {s} wii lent hv room =
      let first : HasRoom (a + i) 1 = elim room [
        | inl h ↦ inl (h.0, omega (arith, h.1))
        | inr h ↦ inr (h.0, omega (arith, h.1))
      ] in
      let later : HasRoom (a + (i + 1)) n = elim room [
        | inl h ↦ inl (omega (arith, h.0), omega (arith, h.1))
        | inr h ↦ inr (omega (arith, h.0), omega (arith, h.1))
      ] in
      let (t, stored, f) = store8-Fills (a + i) v {s = s} wii lent hv first in
      let still : HasRoom location t.buffer.len = rw (f.len) lent in
      let (u, filled, g) = fill8-Fills n a v (i + 1) {s = t} (f.wii) still hv later in
      let small : ltb (a + i) (2 ^ 32) ≡ true = elim room [
        | inl h ↦ lt→ltb _ _ (omega (arith, h.1))
        | inr h ↦ lt→ltb _ _ (omega (arith, h.1))
      ] in
      let from : a + i + 1 ≡ a + (i + 1) = omega arith in
      let to : a + i + suc n ≡ a + (i + 1) + n = omega arith in
      let rest : Fills (a + i + 1) (a + i + suc n) v t u = rw (from, to) g in
      (u, rw (small, stored) filled, Fills-trans (omega arith) (omega arith) f rest)

module _ (be : BigEndian) (codeset : Bytes) (location : ℕ) (s : State) where
  -- The address that the line writes from.
  abbrev pub filled : ℕ
  filled = place (codeset.at s.offset) (word_at codeset.at s.offset % 2 ^ 25) s

  -- How many bytes it writes: one more than the half word after the address.
  abbrev pub count : ℕ
  count = half_at codeset.at (s.offset + 4) + 1

  fill_lem :
      (line : Line) (a : ℕ)
      → IsWii s.memory
      → HasRoom location s.buffer.len
      → IsBytes codeset
      → line.execute ≡ true
      → s.offset + 8 ≤ codeset.len
      → HasRoom a count
      → target line.use_base_address line.address s ≡ ok a
      → (t : State) × (write_and_fill8 be codeset location line s
          ≡ ok (next (record t { offset = s.offset + 8 })))
        × Fills location a (a + count) (codeset.at (s.offset + 7)) s t
  unfolding write_and_fill8 get when advance
  fill_lem line a wii lent bytes runs fits room at =
      let inside : ltb (s.offset + 7) codeset.len ≡ true = ground arith in
      let half_fits : leb (s.offset + 4 + 2) codeset.len ≡ true = ground arith in
      let zeroth : a + 0 ≡ a = omega arith in
      let (t, stores, f) =
        fill8-Fills location count a (codeset.at (s.offset + 7)) 0 {s = s} wii lent
          (bytes (s.offset + 7)) (rw zeroth room) in
      let same : t.offset ≡ s.offset = ap (λ (x : State). x.offset) f.kept in
      (
        t,
        rw (inside, u16_at_lem be codeset (s.offset + 4), half_fits, at, runs, stores, same) refl,
        rw zeroth at f,
      )

  -- A round at a line whose first byte is 00, but for its bits 0 and 4, while execution is enabled: if its
  -- bytes lie in one memory, and the lent buffer in one too, it does not panic and fills as many bytes as
  -- its half word says and one more with the last byte of the line, from its address on, in memory and
  -- where they lie in the buffer. It goes on by 8 bytes and changes nothing else. The address is relative
  -- to the pointer address if bit 4 is set, else to the base address.
  pub step-Fills :
      IsWii s.memory
      → HasRoom location s.buffer.len
      → IsBytes codeset
      → IsNumber (codeset.at s.offset) 0x00
      → last_or_true s.execution_stack ≡ true
      → s.offset + 8 ≤ codeset.len
      → HasRoom filled count
      → (t : State) × (step be codeset location s ≡ ok (next (record t { offset = s.offset + 8 })))
        × Fills location filled (filled + count) (codeset.at (s.offset + 7)) s t
  unfolding handle classify
  step-Fills wii lent bytes same runs fits room =
      let line = line_at be codeset location s in
      let small : filled < 2 ^ 32 = elim room [
        | inl h ↦ omega (arith, h.1)
        | inr h ↦ omega (arith, h.1)
      ] in
      let at : target line.use_base_address line.address s ≡ ok filled =
        target_lem (codeset.at s.offset) line.address s small in
      let (t, fills, f) = fill_lem line filled wii lent bytes runs fits room at in
      (t, step-handle be codeset location s 0x00 refl refl same (omega (arith, fits)) ∙ fills, f)
