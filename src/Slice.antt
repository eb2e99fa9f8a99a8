-- ===== src/Slice.antt =====
-- The crate fancy_slice, as src/ uses it: a byte slice with reads at an offset and subslices.
use brawllib_rs.Prelude.{ℕ, ◌+◌, ◌*◌, ◌^◌, ◌≡◌, refl, leb, if◌then◌else◌}
use brawllib_rs.Outcome.{Outcome, ok, panic}
use brawllib_rs.Bytes.{Bytes, get, slice_from}

-- The reads of `FancySlice`, with the behaviour that its documentation states: they combine the
-- bytes at the offset, most significant first, and panic outside the slice. A signed read has the
-- same bits.
pub record FancySlice : Type 0 where
  pub u8 : Bytes → ℕ → Outcome ℕ
  pub u32_be : Bytes → ℕ → Outcome ℕ
  pub relative_fancy_slice : Bytes → ℕ → Outcome Bytes
  pub u8_lem : (b : Bytes) (k : ℕ) → u8 b k ≡ get b k
  pub u32_be_lem :
      (b : Bytes) (k : ℕ)
      → u32_be b k ≡ (
          if leb (k + 4) b.len
          then ok (b.at k * 2 ^ 24 + b.at (k + 1) * 2 ^ 16 + b.at (k + 2) * 256 + b.at (k + 3))
          else panic)
  pub relative_fancy_slice_lem : (b : Bytes) (k : ℕ) → relative_fancy_slice b k ≡ slice_from b k

-- The same functions written out, which meet this.
abbrev pub fancy_slice : FancySlice
fancy_slice = record {
  u8 = get;
  u32_be = λ b k.
      if leb (k + 4) b.len
      then ok (b.at k * 2 ^ 24 + b.at (k + 1) * 2 ^ 16 + b.at (k + 2) * 256 + b.at (k + 3))
      else panic;
  relative_fancy_slice = slice_from;
  u8_lem = λ b k. refl;
  u32_be_lem = λ b k. refl;
  relative_fancy_slice_lem = λ b k. refl;
}
