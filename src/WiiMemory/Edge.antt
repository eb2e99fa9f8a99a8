-- ===== src/WiiMemory/Edge.antt =====
-- Accesses of src/wii_memory.rs at addresses that no memory holds, and at the last bytes of one,
-- where the slice is too short.
use brawllib_rs.Prelude.{ℕ, ◌+◌, ◌-◌, ◌<◌, ◌≡◌, refl, ◌⊎◌, inl, inr, false, leb, arith, lt→leb}
use brawllib_rs.Outcome.{ok, panic}
use brawllib_rs.Bytes.{BigEndian}
use brawllib_rs.Bytes.Words.{u16_at_lem, u32_at_lem, put_u16_lem, put_u32_lem}
use brawllib_rs.WiiMemory.{WiiMemory, write_u8, read_u8, write_u16, write_u32, read_u16, read_u32}
use brawllib_rs.WiiMemory.View.{
  IsWii, HasRoom, IsCut, IsUnmapped, region-mem1, region-mem2, region-unmapped,
}

-- For an access of `n` bytes an address has room, is cut or is unmapped.
pub address_cases : (a n : ℕ) → 0 < n → HasRoom a n ⊎ (IsCut a n ⊎ IsUnmapped a)
address_cases a n h = grind arith

module _ (be : BigEndian) (m : WiiMemory) (a : ℕ) where
  -- Where nothing is mapped, a write of any width leaves the memory as it is and a read gives 0.
  pub access-unmapped :
      IsUnmapped a
      → (v : ℕ)
      → (write_u8 m a v ≡ ok m)
        × (write_u16 be m a v ≡ ok m)
        × (write_u32 be m a v ≡ ok m)
        × (read_u8 m a ≡ ok 0)
        × (read_u16 be m a ≡ ok 0)
        × (read_u32 be m a ≡ ok 0)
  unfolding write_u8 read_u8 write_u16 write_u32 read_u16 read_u32
  access-unmapped h v = rw (region-unmapped a h) (refl, refl, refl, refl, refl, refl)

module _ (be : BigEndian) {m : WiiMemory} (wii : IsWii m) (a : ℕ) where
  -- A word access that begins in a memory and ends past it panics, reads and writes alike.
  pub word_access-cut :
      IsCut a 4 → (v : ℕ) → (write_u32 be m a v ≡ panic) × (read_u32 be m a ≡ panic)
  unfolding write_u32 read_u32
  word_access-cut (inl h) v =
      let short : leb (a - 0x8000_0000 + 4) m.mem1.len ≡ false =
        lt→leb _ _ (omega (arith, wii.len1)) in
      rw (region-mem1 a h.0 h.1, put_u32_lem, u32_at_lem, short) (refl, refl)
  word_access-cut (inr h) v =
      let short : leb (a - 0x9000_0000 + 4) m.mem2.len ≡ false =
        lt→leb _ _ (omega (arith, wii.len2)) in
      rw (region-mem2 a h.0 h.1, put_u32_lem, u32_at_lem, short) (refl, refl)

  pub half_access-cut :
      IsCut a 2 → (v : ℕ) → (write_u16 be m a v ≡ panic) × (read_u16 be m a ≡ panic)
  unfolding write_u16 read_u16
  half_access-cut (inl h) v =
      let short : leb (a - 0x8000_0000 + 2) m.mem1.len ≡ false =
        lt→leb _ _ (omega (arith, wii.len1)) in
      rw (region-mem1 a h.0 h.1, put_u16_lem, u16_at_lem, short) (refl, refl)
  half_access-cut (inr h) v =
      let short : leb (a - 0x9000_0000 + 2) m.mem2.len ≡ false =
        lt→leb _ _ (omega (arith, wii.len2)) in
      rw (region-mem2 a h.0 h.1, put_u16_lem, u16_at_lem, short) (refl, refl)
