-- ===== src/Bytes/Words.antt =====
-- The half words and words of a slice, with the crate's four functions computed away.
use mathlib.Core.Path.{fun_ext}
use brawllib_rs.Prelude.{
  ℕ, ◌+◌, ◌-◌, ◌*◌, ◌/◌, ◌%◌, ◌^◌, ◌<◌, ◌≡◌, ap, inl, inr, true, false, ltb, leb, if◌then◌else◌,
  arith, Bool-cases,
}
use brawllib_rs.Outcome.{ok, panic}
use brawllib_rs.Bytes.{Bytes, update, slice_from, BigEndian, u16_at, u32_at, put_u16, put_u32}

-- Every byte is below 256, as the type u8 says.
abbrev pub IsBytes : Bytes → Type 0
IsBytes b = (i : ℕ) → b.at i < 256

abbrev pub half_at : (ℕ → ℕ) → ℕ → ℕ
half_at f k = f k * 256 + f (k + 1)

abbrev pub word_at : (ℕ → ℕ) → ℕ → ℕ
word_at f k = f k * 2 ^ 24 + f (k + 1) * 2 ^ 16 + f (k + 2) * 256 + f (k + 3)

-- `f` with the bytes of a half word or of a word from `k` on.
abbrev pub set_half : (ℕ → ℕ) → ℕ → ℕ → ℕ → ℕ
set_half f k v = update (update f k (v / 256 % 256)) (k + 1) (v % 256)

abbrev pub set_word : (ℕ → ℕ) → ℕ → ℕ → ℕ → ℕ
set_word f k v = set_half (set_half f k (v / 2 ^ 16)) (k + 2) v

module _ (be : BigEndian) (b : Bytes) (k : ℕ) where
  pub u32_at_lem : u32_at be b k ≡ (if leb (k + 4) b.len then ok (word_at b.at k) else panic)
  unfolding u32_at slice_from
  u32_at_lem = ground (arith, be.read_u32_lem (record { len = b.len - k; at = λ i. b.at (k + i) }))

  pub put_u32_lem :
      (v : ℕ)
      → put_u32 be b k v
        ≡ (if leb (k + 4) b.len then ok (record b { at = set_word b.at k v }) else panic)
  unfolding put_u32 slice_from
  put_u32_lem v = elim (Bool-cases (leb (k + 4) b.len)) [
    | inl h ↦
        let fits : leb k b.len ≡ true = ground arith in
        let long : ltb (b.len - k) 4 ≡ false = ground arith in
        rw (h, fits, be.write_u32_lem, long)
          (ap (λ f. ok (record b { at = f })) (fun_ext λ i. ground arith))
    | inr h ↦
        ground (arith, be.write_u32_lem (record { len = b.len - k; at = λ i. b.at (k + i) }) v)
  ]

  pub u16_at_lem : u16_at be b k ≡ (if leb (k + 2) b.len then ok (half_at b.at k) else panic)
  unfolding u16_at slice_from
  u16_at_lem = ground (arith, be.read_u16_lem (record { len = b.len - k; at = λ i. b.at (k + i) }))

  pub put_u16_lem :
      (v : ℕ)
      → put_u16 be b k v
        ≡ (if leb (k + 2) b.len then ok (record b { at = set_half b.at k v }) else panic)
  unfolding put_u16 slice_from
  put_u16_lem v = elim (Bool-cases (leb (k + 2) b.len)) [
    | inl h ↦
        let fits : leb k b.len ≡ true = ground arith in
        let long : ltb (b.len - k) 2 ≡ false = ground arith in
        rw (h, fits, be.write_u16_lem, long)
          (ap (λ f. ok (record b { at = f })) (fun_ext λ i. ground arith))
    | inr h ↦
        ground (arith, be.write_u16_lem (record { len = b.len - k; at = λ i. b.at (k + i) }) v)
  ]

-- A word that was written is read back.
pub word_at-set_word : (f : ℕ → ℕ) (k v : ℕ) → v < 2 ^ 32 → word_at (set_word f k v) k ≡ v
word_at-set_word f k v h = ground arith

pub set_word-lt : (f : ℕ → ℕ) (k v : ℕ) → ((i : ℕ) → f i < 256) → (i : ℕ) → set_word f k v i < 256
set_word-lt f k v h i = ground (arith, h i)

pub set_half-lt : (f : ℕ → ℕ) (k v : ℕ) → ((i : ℕ) → f i < 256) → (i : ℕ) → set_half f k v i < 256
set_half-lt f k v h i = ground (arith, h i)

pub word_at-lt : (f : ℕ → ℕ) (k : ℕ) → ((i : ℕ) → f i < 256) → word_at f k < 2 ^ 32
word_at-lt f k h = omega (arith, h k, h (k + 1), h (k + 2), h (k + 3))

pub half_at-lt : (f : ℕ → ℕ) (k : ℕ) → ((i : ℕ) → f i < 256) → half_at f k < 2 ^ 16
half_at-lt f k h = omega (arith, h k, h (k + 1))
