-- ===== src/WiiMemory/Invariant.antt =====
-- No operation of src/wii_memory.rs changes the sizes of the memories, or stores more than a byte.
use brawllib_rs.Prelude.{ℕ, ◌^◌, ◌<◌, ◌≡◌, refl, arith}
use brawllib_rs.Outcome.{Outcome, Post, returns, panics, Post-bind, Post-if}
use brawllib_rs.Bytes.{Bytes, get, put, BigEndian, u16_at, u32_at, put_u16, put_u32}
use brawllib_rs.Bytes.Words.{
  IsBytes, u16_at_lem, u32_at_lem, put_u16_lem, put_u32_lem, set_half-lt, set_word-lt, half_at-lt,
  word_at-lt,
}
use brawllib_rs.WiiMemory.{
  WiiMemory, Region, in_mem1, in_mem2, unmapped, region, write_region, read_region, new, write_u8,
  read_u8, write_u16, write_u32, read_u32,
}
use brawllib_rs.WiiMemory.View.{IsWii}

-- What a write into a slice keeps.
pub record SameSize (b b' : Bytes) : Type 0 where
  pub len : b'.len ≡ b.len
  pub bytes : IsBytes b'

pub new-IsWii : IsWii new
unfolding new
new-IsWii = record {
  len1 = refl;
  len2 = refl;
  bytes1 = λ i. omega arith;
  bytes2 = λ i. omega arith;
}

module _ (b : Bytes) (bytes : IsBytes b) (k : ℕ) where
  pub put-SameSize : {v : ℕ} → v < 256 → Post (SameSize b) (put b k v)
  unfolding put
  put-SameSize h =
      Post-if _ (returns (record { len = refl; bytes = λ i. ground (arith, bytes i) })) panics

  pub get-lt : Post (λ v. v < 256) (get b k)
  unfolding get
  get-lt = Post-if _ (returns (bytes k)) panics

module _ (be : BigEndian) (b : Bytes) (bytes : IsBytes b) (k : ℕ) where
  pub put_u16-SameSize : (v : ℕ) → Post (SameSize b) (put_u16 be b k v)
  put_u16-SameSize v =
      rw put_u16_lem
        (Post-if _ (returns (record { len = refl; bytes = set_half-lt b.at k v bytes })) panics)

  pub put_u32-SameSize : (v : ℕ) → Post (SameSize b) (put_u32 be b k v)
  put_u32-SameSize v =
      rw put_u32_lem
        (Post-if _ (returns (record { len = refl; bytes = set_word-lt b.at k v bytes })) panics)

  pub u16_at-lt : Post (λ v. v < 2 ^ 16) (u16_at be b k)
  u16_at-lt = rw u16_at_lem (Post-if _ (returns (half_at-lt b.at k bytes)) panics)

  pub u32_at-lt : Post (λ v. v < 2 ^ 32) (u32_at be b k)
  u32_at-lt = rw u32_at_lem (Post-if _ (returns (word_at-lt b.at k bytes)) panics)

module _ {m : WiiMemory} (wii : IsWii m) where
  write_region-IsWii :
      (write : Bytes → ℕ → Outcome Bytes)
      → ((b : Bytes) (k : ℕ) → IsBytes b → Post (SameSize b) (write b k))
      → (r : Region) → Post IsWii (write_region write m r)
  unfolding write_region
  write_region-IsWii write keep (in_mem1 k) = Post-bind (keep m.mem1 k wii.bytes1) λ b h.
      returns (record {
        len1 = omega (arith, h.len, wii.len1);
        len2 = wii.len2;
        bytes1 = h.bytes;
        bytes2 = wii.bytes2;
      })
  write_region-IsWii write keep (in_mem2 k) = Post-bind (keep m.mem2 k wii.bytes2) λ b h.
      returns (record {
        len1 = wii.len1;
        len2 = omega (arith, h.len, wii.len2);
        bytes1 = wii.bytes1;
        bytes2 = h.bytes;
      })
  write_region-IsWii write keep unmapped = returns wii

  pub write_u8-IsWii : (a : ℕ) {v : ℕ} → v < 256 → Post IsWii (write_u8 m a v)
  unfolding write_u8
  write_u8-IsWii a h = write_region-IsWii _ (λ b k bytes. put-SameSize b bytes k h) (region a)

  pub read_u8-lt : (a : ℕ) → Post (λ v. v < 256) (read_u8 m a)
  unfolding read_u8
  read_u8-lt a = go (region a)
    where
      go : (r : Region) → Post (λ v. v < 256) (read_region get m r)
      go (in_mem1 k) = get-lt _ wii.bytes1 k
      go (in_mem2 k) = get-lt _ wii.bytes2 k
      go unmapped = returns (omega arith)

module _ (be : BigEndian) {m : WiiMemory} (wii : IsWii m) (a : ℕ) where
  pub write_u16-IsWii : (v : ℕ) → Post IsWii (write_u16 be m a v)
  unfolding write_u16
  write_u16-IsWii v =
      write_region-IsWii wii _ (λ b k bytes. put_u16-SameSize be b bytes k v) (region a)

  pub write_u32-IsWii : (v : ℕ) → Post IsWii (write_u32 be m a v)
  unfolding write_u32
  write_u32-IsWii v =
      write_region-IsWii wii _ (λ b k bytes. put_u32-SameSize be b bytes k v) (region a)

  pub read_u32-lt : Post (λ v. v < 2 ^ 32) (read_u32 be m a)
  unfolding read_u32
  read_u32-lt = go (region a)
    where
      go : (r : Region) → Post (λ v. v < 2 ^ 32) (read_region (u32_at be) m r)
      go (in_mem1 k) = u32_at-lt be _ wii.bytes1 k
      go (in_mem2 k) = u32_at-lt be _ wii.bytes2 k
      go unmapped = returns (omega arith)
