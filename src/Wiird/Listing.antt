-- ===== src/Wiird/Listing.antt =====
-- The lines of a slice one after the other, as src/wiird.rs reads them, without the nesting: what
-- the tree of `process_block` is compared with.
use mathlib.Core.Path.{fun_ext}
use mathlib.Core.List.{append-nil, append_assoc}
use brawllib_rs.Prelude.{
  ℕ, ◌+◌, ◌-◌, ◌≤◌, ◌≡◌, inl, inr, List, [], ◌∷◌, ◌++◌, leb, leb→le, Bool-cases, if◌then◌else◌,
  arith,
}
use brawllib_rs.Outcome.{ok}
use brawllib_rs.Bytes.{Bytes, BigEndian, get, slice_from, u16_at, u32_at}
use brawllib_rs.Bytes.Words.{u16_at_lem, u32_at_lem}
use brawllib_rs.Wiird.Block.{
  IfTest, WiirdCode, WiirdBlock, empty, cons, ElseBranch, no_else, else_block,
}
use brawllib_rs.Wiird.Entry.{Entry, reader, code, skip, failure}
use brawllib_rs.Wiird.Parse.{read_line}

pub data Item : Type 0 where
  single : WiirdCode → Item
  test : IfTest → Item

-- The codes and tests of a block in the order of their lines. Terminators leave no item.
unfoldable mutual
  pub flatten : WiirdBlock → List Item
  flatten empty = []
  flatten (cons c block) = flatten_code c ++ flatten block

  pub flatten_code : WiirdCode → List Item
  flatten_code (WiirdCode.if_statement t then_branch else_branch base pointer) =
      test t ∷ (flatten then_branch ++ flatten_else else_branch)
  flatten_code (WiirdCode.reset_address_high base pointer) = []
  flatten_code c = single c ∷ []

  pub flatten_else : ElseBranch → List Item
  flatten_else no_else = []
  flatten_else (else_block block) = flatten block

-- The items and the bytes of one line.
abbrev pub items : Entry → List Item
items (code c n) = flatten_code c
items (skip n) = []
items (Entry.if_statement t) = test t ∷ []
items (Entry.reset_address_high base pointer) = []
items (Entry.endif e count base pointer) =
    if e then single (WiirdCode.else_code count base pointer) ∷ [] else []
items failure = []

abbrev pub size : Entry → ℕ
size (code c n) = n
size (skip n) = n
size failure = 0
size e = 8

abbrev pub IsGoing : Entry → Type 0
IsGoing failure = ⊥
IsGoing e = Unit

-- The lines from the start of the slice up to an offset have these items.
pub data Lists (be : BigEndian) (bytes : Bytes) : ℕ → List Item → Type 0 where
  start : Lists be bytes 0 []
  line :
      {o : ℕ} {xs : List Item} {e : Entry}
      → Lists be bytes o xs
      → read_line (reader be bytes o) ≡ ok e
      → IsGoing e
      → Lists be bytes (o + size e) (xs ++ items e)

-- A subslice, as the source cuts it.
abbrev from : Bytes → ℕ → Bytes
from bytes k = record { len = bytes.len - k; at = λ i. bytes.at (k + i) }

slice_from-from :
    (bytes part : Bytes) (k : ℕ)
    → slice_from bytes k ≡ ok part
    → (k ≤ bytes.len) × (part ≡ from bytes k)
unfolding slice_from
slice_from-from bytes part k sliced = elim (Bool-cases (leb k bytes.len)) [
  | inl h ↦ (leb→le _ _ h, cc)
  | inr h ↦ absurd cc
]

module _ (be : BigEndian) (bytes : Bytes) (k o : ℕ) (inside : k ≤ bytes.len) where
  get-from : (i : ℕ) → get (from bytes k) (o + i) ≡ get bytes (k + o + i)
  unfolding get
  get-from i = ground arith

  u16_at-from : (i : ℕ) → u16_at be (from bytes k) (o + i) ≡ u16_at be bytes (k + o + i)
  u16_at-from i = rw (u16_at_lem be (from bytes k), u16_at_lem be bytes) (ground arith)

  u32_at-from : (i : ℕ) → u32_at be (from bytes k) (o + i) ≡ u32_at be bytes (k + o + i)
  u32_at-from i = rw (u32_at_lem be (from bytes k), u32_at_lem be bytes) (ground arith)

  -- A line of a subslice is a line of the slice.
  reader-from : reader be (from bytes k) o ≡ reader be bytes (k + o)
  unfolding reader
  reader-from = λ i. record {
    byte = fun_ext get-from i;
    half = fun_ext u16_at-from i;
    word = fun_ext u32_at-from i;
  }

-- The lines of a subslice, after those before it.
pub Lists-append :
    (be : BigEndian) (bytes part : Bytes) {k o : ℕ} {xs ys : List Item}
    → slice_from bytes k ≡ ok part
    → Lists be bytes k xs
    → Lists be part o ys
    → Lists be bytes (k + o) (xs ++ ys)
Lists-append be bytes part {k} sliced before start =
    let same : k + 0 ≡ k = omega arith in rw (same, append-nil) before
Lists-append be bytes part {k} {xs = xs} sliced before
      (line {o = o} {xs = ys} {e = e} h read going) =
    let (inside, cut) = slice_from-from bytes part k sliced in
    let read' : read_line (reader be bytes (k + o)) ≡ ok e =
      rw (← reader-from be bytes k o inside, ← cut) read in
    let same : k + (o + size e) ≡ k + o + size e = omega arith in
    rw (← append_assoc xs ys (items e), same)
      (line (Lists-append be bytes part sliced before h) read' going)
