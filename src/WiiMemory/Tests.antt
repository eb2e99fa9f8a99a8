-- ===== src/WiiMemory/Tests.antt =====
-- Runs of src/wii_memory.rs, and its theorems at concrete addresses.
use brawllib_rs.Prelude.{ℕ, ◌≤◌, ◌<◌, ◌≡◌, refl, ◌⊎◌, arith}
use brawllib_rs.Outcome.{ok, panic, ◌>>=◌}
use brawllib_rs.Bytes.{slice_from, get, put_u32}
use brawllib_rs.Bytes.Reference.{big_endian}
use brawllib_rs.Bytes.Words.{word_at, set_word}
use brawllib_rs.WiiMemory.{new, region, write_u8, read_u8, write_u16, read_u16, write_u32, read_u32}
use brawllib_rs.WiiMemory.View.{view, HasRoom, Edits}
use brawllib_rs.WiiMemory.Access.{write_u32-view, read_u32-view}
use brawllib_rs.WiiMemory.Edge.{word_access-cut, access-unmapped}
use brawllib_rs.WiiMemory.Invariant.{new-IsWii}
use brawllib_rs.WiiMemory.Roundtrip.{read-write_u32}

big_endian_order :
    (write_u32 big_endian new 0x8000_0010 0x0102_0304 >>= λ m. read_u8 m 0x8000_0011) ≡ ok 2
unfolding write_u32 read_u8 new region put_u32 slice_from get
big_endian_order = refl

write_u32-view_example :
    Edits new
      (write_u32 big_endian new 0x8000_0010 0x0102_0304)
      (set_word (view new) 0x8000_0010 0x0102_0304)
write_u32-view_example =
    write_u32-view big_endian {m = new} new-IsWii 0x8000_0010 0x0102_0304 (omega arith)

read_u32-view_example : read_u32 big_endian new 0x8000_0010 ≡ ok (word_at (view new) 0x8000_0010)
read_u32-view_example = read_u32-view big_endian {m = new} new-IsWii 0x8000_0010 (omega arith)

read-write_u32_example :
    ((write_u32 big_endian new 0x8000_0010 7 >>= λ m. read_u32 big_endian m 0x8000_0010) ≡ ok 7)
    × ((b : ℕ)
        → HasRoom b 1
        → (b < 0x8000_0010) ⊎ (0x8000_0014 ≤ b)
        → (write_u32 big_endian new 0x8000_0010 7 >>= λ m. read_u8 m b) ≡ read_u8 new b)
read-write_u32_example =
    read-write_u32 big_endian {m = new} new-IsWii 0x8000_0010 7 (omega arith) (omega arith)

word_access-cut_example :
    (write_u32 big_endian new 0x817F_FFFE 7 ≡ panic) × (read_u32 big_endian new 0x817F_FFFE ≡ panic)
word_access-cut_example = word_access-cut big_endian {m = new} new-IsWii 0x817F_FFFE (omega arith) 7

access-unmapped_example :
    (write_u8 new 0x8800_0000 1 ≡ ok new)
    × (write_u16 big_endian new 0x8800_0000 1 ≡ ok new)
    × (write_u32 big_endian new 0x8800_0000 1 ≡ ok new)
    × (read_u8 new 0x8800_0000 ≡ ok 0)
    × (read_u16 big_endian new 0x8800_0000 ≡ ok 0)
    × (read_u32 big_endian new 0x8800_0000 ≡ ok 0)
access-unmapped_example = access-unmapped big_endian new 0x8800_0000 (omega arith) 1
