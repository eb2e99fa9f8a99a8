-- ===== src/WiiMemory/View.antt =====
-- The memory of src/wii_memory.rs as one address space: the byte at each address.
use brawllib_rs.Prelude.{ℕ, ◌+◌, ◌-◌, ◌<◌, ◌≤◌, ◌≡◌, ◌⊎◌, arith}
use brawllib_rs.Outcome.{Outcome, ok}
use brawllib_rs.Bytes.Words.{IsBytes}
use brawllib_rs.WiiMemory.{WiiMemory, Region, in_mem1, in_mem2, unmapped, region}

-- The sizes that `new` gives, which no operation changes, and bytes below 256.
pub record IsWii (m : WiiMemory) : Type 0 where
  pub len1 : m.mem1.len ≡ 0x180_0000
  pub len2 : m.mem2.len ≡ 0x400_0000
  pub bytes1 : IsBytes m.mem1
  pub bytes2 : IsBytes m.mem2

abbrev pub byte_of : WiiMemory → Region → ℕ
byte_of m (in_mem1 k) = m.mem1.at k
byte_of m (in_mem2 k) = m.mem2.at k
byte_of m unmapped = 0

-- The byte at an address, 0 where nothing is mapped.
unfoldable pub view : WiiMemory → ℕ → ℕ
view m a = byte_of m (region a)

-- The `n` bytes from `a` on lie in one memory.
abbrev pub HasRoom : ℕ → ℕ → Type 0
HasRoom a n = (0x8000_0000 ≤ a) × (a + n ≤ 0x8180_0000) ⊎ (0x9000_0000 ≤ a) × (a + n ≤ 0x9400_0000)

-- A mapped address with fewer than `n` bytes to the end of its memory.
abbrev pub IsCut : ℕ → ℕ → Type 0
IsCut a n =
    (0x8000_0000 ≤ a) × (a < 0x8180_0000) × (0x8180_0000 < a + n)
    ⊎ (0x9000_0000 ≤ a) × (a < 0x9400_0000) × (0x9400_0000 < a + n)

abbrev pub IsUnmapped : ℕ → Type 0
IsUnmapped a = (a < 0x8000_0000) ⊎ (0x8180_0000 ≤ a) × (a < 0x9000_0000) ⊎ (0x9400_0000 ≤ a)

pub region-mem1 : (a : ℕ) → 0x8000_0000 ≤ a → a < 0x8180_0000 → region a ≡ in_mem1 (a - 0x8000_0000)
unfolding region
region-mem1 a lo hi = ground arith

pub region-mem2 : (a : ℕ) → 0x9000_0000 ≤ a → a < 0x9400_0000 → region a ≡ in_mem2 (a - 0x9000_0000)
unfolding region
region-mem2 a lo hi = ground arith

pub region-unmapped : (a : ℕ) → IsUnmapped a → region a ≡ unmapped
unfolding region
region-unmapped a h = ground arith

-- `m` with other bytes in one of its memories.
abbrev pub set_mem1 : WiiMemory → (ℕ → ℕ) → WiiMemory
set_mem1 m f = record m { mem1 = record (m.mem1) { at = f } }

abbrev pub set_mem2 : WiiMemory → (ℕ → ℕ) → WiiMemory
set_mem2 m f = record m { mem2 = record (m.mem2) { at = f } }

abbrev pub Edits : WiiMemory → Outcome WiiMemory → (ℕ → ℕ) → Type 0
Edits m written bytes =
    (m' : WiiMemory) × (written ≡ ok m') × IsWii m' × ((b : ℕ) → view m' b ≡ bytes b)
