-- ===== src/WiiMemory/Access.antt =====
-- Reads and writes of src/wii_memory.rs whose bytes lie in one memory are those of the address
-- space, whatever their width.
use brawllib_rs.Prelude.{ℕ, ◌+◌, ◌-◌, ◌<◌, ◌≡◌, refl, ap, inl, inr, true, leb, arith, le→leb}
use brawllib_rs.Outcome.{ok}
use brawllib_rs.Bytes.{get, put, update, BigEndian}
use brawllib_rs.Bytes.Words.{
  half_at, word_at, set_half, set_word, u16_at_lem, u32_at_lem, put_u16_lem, put_u32_lem,
  set_half-lt, set_word-lt,
}
use brawllib_rs.WiiMemory.{
  WiiMemory, region, write_u8, read_u8, write_u16, write_u32, read_u16, read_u32,
}
use brawllib_rs.WiiMemory.View.{
  IsWii, view, HasRoom, Edits, set_mem1, set_mem2, region-mem1, region-mem2,
}

module _ {m : WiiMemory} (wii : IsWii m) (a : ℕ) where
  -- A read inside one memory gives the byte there.
  pub read_u8-view : HasRoom a 1 → read_u8 m a ≡ ok (view m a)
  unfolding read_u8 view get
  read_u8-view (inl h) = rw (region-mem1 a h.0 (omega arith)) (ground arith)
  read_u8-view (inr h) = rw (region-mem2 a h.0 (omega arith)) (ground arith)

  -- A write of the byte inside one memory changes what is written, and nothing else.
  pub write_u8-view :
      (v : ℕ) → v < 256 → HasRoom a 1 → Edits m (write_u8 m a v) (update (view m) a v)
  unfolding write_u8 view region put
  write_u8-view v hv (inl h) =
      let k = a - 0x8000_0000 in
      let fits : leb (k + 1) m.mem1.len ≡ true = le→leb _ _ (omega (arith, wii.len1)) in
      (
        set_mem1 m (update m.mem1.at k v),
        rw (region-mem1 a h.0 (omega arith)) (ground (arith, fits)),
        record {
          len1 = wii.len1;
          len2 = wii.len2;
          bytes1 = λ i. ground (arith, wii.bytes1 i);
          bytes2 = wii.bytes2;
        },
        λ b. ground arith,
      )
  write_u8-view v hv (inr h) =
      let k = a - 0x9000_0000 in
      let fits : leb (k + 1) m.mem2.len ≡ true = le→leb _ _ (omega (arith, wii.len2)) in
      (
        set_mem2 m (update m.mem2.at k v),
        rw (region-mem2 a h.0 (omega arith)) (ground (arith, fits)),
        record {
          len1 = wii.len1;
          len2 = wii.len2;
          bytes1 = wii.bytes1;
          bytes2 = λ i. ground (arith, wii.bytes2 i);
        },
        λ b. ground arith,
      )

module _ (be : BigEndian) {m : WiiMemory} (wii : IsWii m) (a : ℕ) where
  pub read_u16-view : HasRoom a 2 → read_u16 be m a ≡ ok (half_at (view m) a)
  unfolding read_u16 view region
  read_u16-view (inl h) =
      let fits : leb (a - 0x8000_0000 + 2) m.mem1.len ≡ true =
        le→leb _ _ (omega (arith, wii.len1)) in
      rw (region-mem1 a h.0 (omega arith), u16_at_lem, fits) (ap ok (ground arith))
  read_u16-view (inr h) =
      let fits : leb (a - 0x9000_0000 + 2) m.mem2.len ≡ true =
        le→leb _ _ (omega (arith, wii.len2)) in
      rw (region-mem2 a h.0 (omega arith), u16_at_lem, fits) (ap ok (ground arith))

  -- A read of four bytes inside one memory combines them, the highest first.
  pub read_u32-view : HasRoom a 4 → read_u32 be m a ≡ ok (word_at (view m) a)
  unfolding read_u32 view region
  read_u32-view (inl h) =
      let fits : leb (a - 0x8000_0000 + 4) m.mem1.len ≡ true =
        le→leb _ _ (omega (arith, wii.len1)) in
      rw (region-mem1 a h.0 (omega arith), u32_at_lem, fits) (ap ok (ground arith))
  read_u32-view (inr h) =
      let fits : leb (a - 0x9000_0000 + 4) m.mem2.len ≡ true =
        le→leb _ _ (omega (arith, wii.len2)) in
      rw (region-mem2 a h.0 (omega arith), u32_at_lem, fits) (ap ok (ground arith))

  -- A write of two bytes inside one memory does not panic and changes those two bytes of the
  -- address space, and nothing else.
  write_u16-view : (v : ℕ) → HasRoom a 2 → Edits m (write_u16 be m a v) (set_half (view m) a v)
  unfolding write_u16 view region
  write_u16-view v (inl h) =
      let k = a - 0x8000_0000 in
      let fits : leb (k + 2) m.mem1.len ≡ true = le→leb _ _ (omega (arith, wii.len1)) in
      (
        set_mem1 m (set_half m.mem1.at k v),
        rw (region-mem1 a h.0 (omega arith), put_u16_lem, fits) refl,
        record {
          len1 = wii.len1;
          len2 = wii.len2;
          bytes1 = set_half-lt m.mem1.at k v wii.bytes1;
          bytes2 = wii.bytes2;
        },
        λ b. ground arith,
      )
  write_u16-view v (inr h) =
      let k = a - 0x9000_0000 in
      let fits : leb (k + 2) m.mem2.len ≡ true = le→leb _ _ (omega (arith, wii.len2)) in
      (
        set_mem2 m (set_half m.mem2.at k v),
        rw (region-mem2 a h.0 (omega arith), put_u16_lem, fits) refl,
        record {
          len1 = wii.len1;
          len2 = wii.len2;
          bytes1 = wii.bytes1;
          bytes2 = set_half-lt m.mem2.at k v wii.bytes2;
        },
        λ b. ground arith,
      )

  -- A write of four bytes inside one memory does not panic and changes those four bytes of the
  -- address space, and nothing else.
  pub write_u32-view : (v : ℕ) → HasRoom a 4 → Edits m (write_u32 be m a v) (set_word (view m) a v)
  unfolding write_u32 view region
  write_u32-view v (inl h) =
      let k = a - 0x8000_0000 in
      let fits : leb (k + 4) m.mem1.len ≡ true = le→leb _ _ (omega (arith, wii.len1)) in
      (
        set_mem1 m (set_word m.mem1.at k v),
        rw (region-mem1 a h.0 (omega arith), put_u32_lem, fits) refl,
        record {
          len1 = wii.len1;
          len2 = wii.len2;
          bytes1 = set_word-lt m.mem1.at k v wii.bytes1;
          bytes2 = wii.bytes2;
        },
        λ b. ground arith,
      )
  write_u32-view v (inr h) =
      let k = a - 0x9000_0000 in
      let fits : leb (k + 4) m.mem2.len ≡ true = le→leb _ _ (omega (arith, wii.len2)) in
      (
        set_mem2 m (set_word m.mem2.at k v),
        rw (region-mem2 a h.0 (omega arith), put_u32_lem, fits) refl,
        record {
          len1 = wii.len1;
          len2 = wii.len2;
          bytes1 = wii.bytes1;
          bytes2 = set_word-lt m.mem2.at k v wii.bytes2;
        },
        λ b. ground arith,
      )
