-- ===== src/Bytes/Reference.antt =====
-- The big-endian functions, written out: they meet what `BigEndian` asks of the crate. And slices
-- of given bytes.
use brawllib_rs.Prelude.{
  ℕ, zero, suc, ◌+◌, ◌*◌, ◌/◌, ◌%◌, ◌^◌, ◌<◌, refl, List, [], ◌∷◌, All, length, ltb, if◌then◌else◌,
  arith,
}
use brawllib_rs.Outcome.{ok, panic}
use brawllib_rs.Bytes.{Bytes, update, BigEndian}
use brawllib_rs.Bytes.Words.{IsBytes}

abbrev pub big_endian : BigEndian
big_endian = record {
  read_u16 = λ b. if ltb b.len 2 then panic else ok (b.at 0 * 256 + b.at 1);
  read_u32 = λ b.
      if ltb b.len 4 then panic else ok (b.at 0 * 2 ^ 24 + b.at 1 * 2 ^ 16 + b.at 2 * 256 + b.at 3);
  write_u16 = λ b v.
      if ltb b.len 2
      then panic
      else ok (record b { at = update (update b.at 0 (v / 256 % 256)) 1 (v % 256) });
  write_u32 = λ b v.
      if ltb b.len 4
      then panic
      else ok (record b {
        at =
            update
              (update (update (update b.at 0 (v / 2 ^ 24 % 256)) 1 (v / 2 ^ 16 % 256)) 2
                (v / 256 % 256))
              3 (v % 256);
      });
  read_u16_lem = λ b. refl;
  read_u32_lem = λ b. refl;
  write_u16_lem = λ b v. refl;
  write_u32_lem = λ b v. refl;
}

abbrev byte_of : List ℕ → ℕ → ℕ
byte_of [] i = 0
byte_of (x ∷ xs) zero = x
byte_of (x ∷ xs) (suc i) = byte_of xs i

abbrev pub bytes_of : List ℕ → Bytes
bytes_of xs = record { len = length xs; at = byte_of xs }

pub bytes_of-IsBytes : (xs : List ℕ) → All (λ x. x < 256) xs → IsBytes (bytes_of xs)
bytes_of-IsBytes [] h i = omega arith
bytes_of-IsBytes (x ∷ xs) h zero = h.0
bytes_of-IsBytes (x ∷ xs) h (suc i) = bytes_of-IsBytes xs h.1 i
