-- ===== src/Bytes.antt =====
-- Byte slices (`&[u8]`, `Vec<u8>`), and the traits of the crate byteorder that read and write them.
pub mod Words
pub mod Reference
use brawllib_rs.Prelude.{ℕ, ◌+◌, ◌-◌, ◌*◌, ◌/◌, ◌%◌, ◌^◌, ◌≡◌, ltb, leb, ◌==◌, if◌then◌else◌}
use brawllib_rs.Outcome.{Outcome, ok, panic, ◌>>=◌}

-- A slice by its length and its bytes. What `at` holds from `len` on means nothing.
pub record Bytes : Type 0 where
  pub len : ℕ
  pub at : ℕ → ℕ

abbrev pub update : (ℕ → ℕ) → ℕ → ℕ → ℕ → ℕ
update f i v j = if j == i then v else f j

-- `b[i]`
unfoldable pub get : Bytes → ℕ → Outcome ℕ
get b i = if ltb i b.len then ok (b.at i) else panic

-- `b[i] = v`
unfoldable pub put : Bytes → ℕ → ℕ → Outcome Bytes
put b i v = if ltb i b.len then ok (record b { at = update b.at i v }) else panic

-- `&b[k ..]`
unfoldable pub slice_from : Bytes → ℕ → Outcome Bytes
slice_from b k =
    if leb k b.len then ok (record { len = b.len - k; at = λ i. b.at (k + i) }) else panic

-- What a write through `&mut b[k ..]` leaves in `b`, when the subslice becomes `part`.
abbrev pub splice : Bytes → ℕ → Bytes → Bytes
splice b k part = record b { at = λ i. if ltb i k then b.at i else part.at (i - k) }

-- The big-endian half of the crate byteorder, with the behaviour that its documentation states:
-- a read combines the first bytes, most significant first, a write replaces them and leaves the
-- others, and both panic on a buffer that is too short. (`ReadBytesExt` on a slice fails there,
-- and the source unwraps.) A signed read has the same bits.
pub record BigEndian : Type 0 where
  pub read_u16 : Bytes → Outcome ℕ
  pub read_u32 : Bytes → Outcome ℕ
  pub write_u16 : Bytes → ℕ → Outcome Bytes
  pub write_u32 : Bytes → ℕ → Outcome Bytes
  pub read_u16_lem :
      (b : Bytes) → read_u16 b ≡ (if ltb b.len 2 then panic else ok (b.at 0 * 256 + b.at 1))
  pub read_u32_lem :
      (b : Bytes)
      → read_u32 b ≡ (
          if ltb b.len 4
          then panic
          else ok (b.at 0 * 2 ^ 24 + b.at 1 * 2 ^ 16 + b.at 2 * 256 + b.at 3))
  pub write_u16_lem :
      (b : Bytes) (v : ℕ)
      → write_u16 b v ≡ (
          if ltb b.len 2
          then panic
          else ok (record b { at = update (update b.at 0 (v / 256 % 256)) 1 (v % 256) }))
  pub write_u32_lem :
      (b : Bytes) (v : ℕ)
      → write_u32 b v ≡ (
          if ltb b.len 4
          then panic
          else ok (record b {
            at =
                update
                  (update
                    (update (update b.at 0 (v / 2 ^ 24 % 256)) 1 (v / 2 ^ 16 % 256))
                    2
                    (v / 256 % 256))
                  3
                  (v % 256);
          }))

module _ (be : BigEndian) where
  -- `(&b[k ..]).read_u16::<BigEndian>().unwrap()`, and the like
  unfoldable pub u16_at : Bytes → ℕ → Outcome ℕ
  u16_at b k = slice_from b k >>= be.read_u16

  unfoldable pub u32_at : Bytes → ℕ → Outcome ℕ
  u32_at b k = slice_from b k >>= be.read_u32

  -- `BigEndian::write_u16(&mut b[k ..], v)`
  unfoldable pub put_u16 : Bytes → ℕ → ℕ → Outcome Bytes
  put_u16 b k v = do part ← slice_from b k; part' ← be.write_u16 part v; ok (splice b k part')

  unfoldable pub put_u32 : Bytes → ℕ → ℕ → Outcome Bytes
  put_u32 b k v = do part ← slice_from b k; part' ← be.write_u32 part v; ok (splice b k part')
