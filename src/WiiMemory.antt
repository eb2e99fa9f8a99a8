-- ===== src/WiiMemory.antt =====
-- src/wii_memory.rs: the two memories of the console behind one address space. The log lines of
-- an unmapped address are left out. A `usize` address is a number.
pub mod View
pub mod Access
pub mod Edge
pub mod Invariant
pub mod Roundtrip
mod Tests
use brawllib_rs.Prelude.{ℕ, ◌-◌, ltb, leb, ◌&&◌, if◌then◌else◌}
use brawllib_rs.Outcome.{Outcome, ok, ◌>>=◌}
use brawllib_rs.Bytes.{Bytes, get, put, slice_from, BigEndian, u16_at, u32_at, put_u16, put_u32}

pub record WiiMemory : Type 0 where
  pub mem1 : Bytes
  pub mem2 : Bytes

-- `vec!(0; n)`
abbrev pub zeros : ℕ → Bytes
zeros n = record { len = n; at = λ _. 0 }

unfoldable pub new : WiiMemory
new = record { mem1 = zeros 0x180_0000; mem2 = zeros 0x400_0000 }

-- The two tests that every access makes, with the offset into the memory that they select.
pub data Region : Type 0 where
  in_mem1 : ℕ → Region
  in_mem2 : ℕ → Region
  unmapped : Region

unfoldable pub region : ℕ → Region
region address =
    if leb 0x8000_0000 address && ltb address 0x8180_0000
    then in_mem1 (address - 0x8000_0000)
    else if leb 0x9000_0000 address && ltb address 0x9400_0000
    then in_mem2 (address - 0x9000_0000)
    else unmapped

-- A write into the selected memory; `put` is the write into its bytes.
unfoldable pub write_region : (Bytes → ℕ → Outcome Bytes) → WiiMemory → Region → Outcome WiiMemory
write_region put m (in_mem1 k) = do mem1 ← put m.mem1 k; ok (record m { mem1 = mem1 })
write_region put m (in_mem2 k) = do mem2 ← put m.mem2 k; ok (record m { mem2 = mem2 })
write_region put m unmapped = ok m

-- A read from the selected memory, 0 where nothing is mapped.
unfoldable pub read_region : (Bytes → ℕ → Outcome ℕ) → WiiMemory → Region → Outcome ℕ
read_region get m (in_mem1 k) = get m.mem1 k
read_region get m (in_mem2 k) = get m.mem2 k
read_region get m unmapped = ok 0

unfoldable pub write_u8 : WiiMemory → ℕ → ℕ → Outcome WiiMemory
unfolding write_region
write_u8 m address value = write_region (λ b k. put b k value) m (region address)

unfoldable pub read_u8 : WiiMemory → ℕ → Outcome ℕ
unfolding read_region
read_u8 m address = read_region get m (region address)

-- `buffer_from`, and `fancy_slice_from` before it wraps the slice: from the address to the end of
-- its memory, empty where nothing is mapped.
unfoldable pub buffer_region : WiiMemory → Region → Outcome Bytes
buffer_region m (in_mem1 k) = slice_from m.mem1 k
buffer_region m (in_mem2 k) = slice_from m.mem2 k
buffer_region m unmapped = ok (zeros 0)

unfoldable pub buffer_from : WiiMemory → ℕ → Outcome Bytes
unfolding buffer_region
buffer_from m address = buffer_region m (region address)

module _ (be : BigEndian) where
  unfoldable pub write_u16 : WiiMemory → ℕ → ℕ → Outcome WiiMemory
  unfolding write_region
  write_u16 m address value = write_region (λ b k. put_u16 be b k value) m (region address)

  unfoldable pub write_u32 : WiiMemory → ℕ → ℕ → Outcome WiiMemory
  unfolding write_region
  write_u32 m address value = write_region (λ b k. put_u32 be b k value) m (region address)

  unfoldable pub read_u16 : WiiMemory → ℕ → Outcome ℕ
  unfolding read_region
  read_u16 m address = read_region (u16_at be) m (region address)

  unfoldable pub read_u32 : WiiMemory → ℕ → Outcome ℕ
  unfolding read_region
  read_u32 m address = read_region (u32_at be) m (region address)
