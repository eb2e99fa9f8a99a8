-- ===== src/Wiird/Terminates.antt =====
-- The loop of `process_block` of src/wiird.rs ends, at every depth of nesting, and what a nested
-- call returns fits the slice that it was given.
use brawllib_rs.Prelude.{
  ℕ, zero, suc, ◌+◌, ◌%◌, ◌≤◌, ◌<◌, ◌≡◌, refl, inl, inr, Bool, true, false, Option, none, some,
  ◌&&◌, ltb, leb, leb→le, and-true, ltb→lt, Bool-cases, if◌then◌else◌, ◌==◌, arith,
}
use brawllib_rs.Outcome.{Ends, Outcome, ok, panic, Post, Post-ok, returns, panics, Post-bind}
use brawllib_rs.Bytes.{Bytes, BigEndian, slice_from}
use brawllib_rs.Wiird.Block.{
  IfTest, WiirdBlock, empty, EndIfCount, infinite, finite, ProcessedBlock, finished, end_if,
}
use brawllib_rs.Wiird.Entry.{Entry, code, skip, failure}
use brawllib_rs.Wiird.Lines.{IsEntry, read_line-IsEntry}
use brawllib_rs.Wiird.Parse.{
  Exit, go, leave, Round, exit, nest, end_line, decrement, more_endif, end_test, round,
  process_lines, process_block,
}

-- A count that has a block to end.
abbrev pub IsCount : EndIfCount → Type 0
IsCount infinite = Unit
IsCount (finite n) = 0 < n

-- Only a nested block is ended by a terminator; it takes whole lines, and no more than there are.
abbrev pub IsProcessed : Bool → (len : ℕ) → ProcessedBlock → Type 0
IsProcessed is_nested len (finished b) = Unit
IsProcessed is_nested len (end_if count b n _ _) =
    (is_nested ≡ true) × IsCount count × (8 ≤ n) × (n ≤ len) × (n % 8 ≡ 0)

-- A round goes on at a later line, or returns.
abbrev pub IsExit : Bool → (len offset : ℕ) → Exit → Type 0
IsExit is_nested len offset (go o c) = (offset + 8 ≤ o) × (o % 8 ≡ 0)
IsExit is_nested len offset (leave r) = IsProcessed is_nested len r

abbrev IsRound : Bool → (len offset : ℕ) → Round → Type 0
IsRound is_nested len offset (exit x) = IsExit is_nested len offset x
IsRound is_nested len offset (nest t part) = part.len + (offset + 8) ≡ len

slice_from-len :
    (bytes : Bytes) (k : ℕ) → Post (λ part. part.len + k ≡ bytes.len) (slice_from bytes k)
unfolding slice_from
slice_from-len bytes k = elim (Bool-cases (leb k bytes.len)) [
  | inl h ↦ rw h (returns (omega (arith, leb→le _ _ h)))
  | inr h ↦ rw h panics
]

module _ (bytes : Bytes) (is_nested : Bool) (offset : ℕ) (codes : WiirdBlock)
    (whole : offset % 8 ≡ 0) where
  reset-IsExit :
      (b : Bool) (base pointer : ℕ) (more : WiirdBlock)
      → offset + 8 ≤ bytes.len
      → IsExit b bytes.len offset (
          if b
          then leave (end_if infinite codes (offset + 8) base pointer)
          else go (offset + 8) more)
  reset-IsExit true base pointer more room = (refl, tt, omega arith, room, omega arith)
  reset-IsExit false base pointer more room = (omega arith, omega arith)

  endif-IsExit :
      (b : Bool) (count base pointer : ℕ) (codes' more : WiirdBlock)
      → offset + 8 ≤ bytes.len
      → IsExit b bytes.len offset (
          if b
          then (if count == 0
              then go (offset + 8) codes'
              else leave (end_if (finite count) codes' (offset + 8) base pointer))
          else go (offset + 8) more)
  endif-IsExit true count base pointer codes' more room = elim (Bool-cases (count == 0)) [
    | inl h ↦ rw h (omega arith, omega arith)
    | inr h ↦
        let some_count : 0 < count = ground arith in
        rw h (refl, some_count, omega arith, room, omega arith)
  ]
  endif-IsExit false count base pointer codes' more room = (omega arith, omega arith)

  end_line-IsRound :
      (e : Entry)
      → IsEntry bytes offset e
      → Post (IsRound is_nested bytes.len offset) (end_line bytes is_nested offset codes e)
  unfolding end_line
  end_line-IsRound (code c n) h = returns (omega (arith, h.0), omega (arith, h.1))
  end_line-IsRound (skip n) h = returns (omega (arith, h.0), omega (arith, h.1))
  end_line-IsRound (Entry.if_statement t) h =
      Post-bind (slice_from-len bytes (offset + 8)) λ part fits. returns fits
  end_line-IsRound (Entry.reset_address_high base pointer) h =
      returns (reset-IsExit is_nested base pointer _ h)
  end_line-IsRound (Entry.endif e count base pointer) h =
      returns (endif-IsExit is_nested count base pointer _ _ h)
  end_line-IsRound failure h = returns tt

  round-IsRound :
      (be : BigEndian)
      → Post (IsRound is_nested bytes.len offset) (round be bytes is_nested offset codes)
  unfolding round
  round-IsRound be = Post-bind (read_line-IsEntry be bytes offset) end_line-IsRound

module _ (is_nested : Bool) (len offset : ℕ) (codes : WiirdBlock) (t : IfTest)
    (whole : offset % 8 ≡ 0) where
  -- The two ways on from a test whose block took `n` bytes.
  after_block-IsExit :
      (more : Bool) (count : EndIfCount) (n base pointer : ℕ) (codes' codes'' : WiirdBlock)
      → (more ≡ true → IsCount count)
      → 8 ≤ n
      → n + (offset + 8) ≤ len
      → n % 8 ≡ 0
      → IsExit is_nested len offset (
          if more && is_nested
          then leave (end_if count codes' (offset + 8 + n) base pointer)
          else go (offset + 8 + n) codes'')
  after_block-IsExit more count n base pointer codes' codes'' counts size room lines =
      elim (Bool-cases (more && is_nested)) [
        | inl h ↦
            let both = and-true more is_nested h in
            rw h (both.1, counts both.0, omega arith, omega arith, omega arith)
        | inr h ↦ rw h (omega arith, omega arith)
      ]

  -- The end of a test does not panic when its block was read from a subslice that begins after the
  -- test's line: the count of the block's terminator is 1 or more, so that `x - 1` does not
  -- overflow. It goes on at a later line, or returns what a nested block may return.
  end_test-IsExit :
      (part : ℕ) (inner : ProcessedBlock)
      → IsProcessed true part inner
      → part + (offset + 8) ≡ len
      → (x : Exit) × (end_test is_nested (offset + 8) codes t inner ≡ ok x)
        × IsExit is_nested len offset x
  unfolding end_test decrement more_endif
  end_test-IsExit part (finished _) h fits = (leave (finished empty), refl, tt)
  end_test-IsExit part (end_if infinite b n base pointer) (_, _, size, room, lines) fits = (
    _,
    refl,
    after_block-IsExit true infinite n base pointer _ _ (λ _. tt) size (omega arith) lines,
  )
  end_test-IsExit part (end_if (finite zero) b n base pointer) (_, some_count, _, _, _) fits =
      absurd (omega (arith, some_count))
  end_test-IsExit part (end_if (finite (suc m)) b n base pointer) (_, _, size, room, lines) fits = (
    _,
    refl,
    after_block-IsExit (ltb 0 m) (finite m) n base pointer _ _ (ltb→lt 0 m) size (omega arith)
        lines,
  )

module _ (be : BigEndian) where
  -- The rounds that fuel is left for, as an induction gives them.
  abbrev Later : ℕ → Type 0
  Later fuel =
      (bytes : Bytes) (is_nested : Bool) (offset : ℕ) (codes : WiirdBlock)
      → bytes.len < fuel + offset
      → 0 < fuel
      → offset % 8 ≡ 0
      → Ends (IsProcessed is_nested bytes.len) (process_lines be fuel bytes is_nested offset codes)

  module _ (bytes : Bytes) (is_nested : Bool) (fuel offset : ℕ) (codes : WiirdBlock)
      (later : Later fuel) (enough : bytes.len < suc fuel + offset) (inside : offset < bytes.len)
      (whole : offset % 8 ≡ 0) where
    exit-Ends :
        (x : Exit)
        → IsExit is_nested bytes.len offset x
        → Ends
            (IsProcessed is_nested bytes.len)
            (elim x [ leave r ↦ some (ok r) | go o c ↦ process_lines be fuel bytes is_nested o c ])
    exit-Ends (leave r) h = (ok r, refl, returns h)
    exit-Ends (go o c) h = later bytes is_nested o c (omega (arith, h.0)) (omega arith) h.1

    -- The end of a test, once its block has been read.
    nest-Ends :
        (t : IfTest) (part : Bytes) (inner : Option (Outcome ProcessedBlock))
        → part.len + (offset + 8) ≡ bytes.len
        → Ends (IsProcessed true part.len) inner
        → Ends (IsProcessed is_nested bytes.len) (elim inner [
          | none ↦ none
          | some panic ↦ some panic
          | some (ok inner) ↦ elim (end_test is_nested (offset + 8) codes t inner) [
            | panic ↦ some panic
            | ok (leave r) ↦ some (ok r)
            | ok (go o c) ↦ process_lines be fuel bytes is_nested o c
          ]
        ])
    nest-Ends t part inner fits (panic, e, h) = rw e (panic, refl, panics)
    nest-Ends t part inner fits (ok r, e, h) =
        let (x, ends, is_exit) =
          end_test-IsExit is_nested bytes.len offset codes t whole part.len r (Post-ok h) fits in
        rw (e, ends) (exit-Ends x is_exit)

    round-Ends :
        (r : Outcome Round)
        → Post (IsRound is_nested bytes.len offset) r
        → Ends (IsProcessed is_nested bytes.len) (elim r [
          | panic ↦ some panic
          | ok (exit (leave r)) ↦ some (ok r)
          | ok (exit (go o c)) ↦ process_lines be fuel bytes is_nested o c
          | ok (nest t part) ↦ elim (process_lines be fuel part true 0 empty) [
            | none ↦ none
            | some panic ↦ some panic
            | some (ok inner) ↦ elim (end_test is_nested (offset + 8) codes t inner) [
              | panic ↦ some panic
              | ok (leave r) ↦ some (ok r)
              | ok (go o c) ↦ process_lines be fuel bytes is_nested o c
            ]
          ]
        ])
    round-Ends panic h = (panic, refl, panics)
    round-Ends (ok (exit (leave r))) h = (ok r, refl, returns (Post-ok h))
    round-Ends (ok (exit (go o c))) h = exit-Ends (go o c) (Post-ok h)
    round-Ends (ok (nest t part)) h =
        nest-Ends t part _ (Post-ok h)
          (later part true 0 empty (omega (arith, Post-ok h)) (omega arith) refl)

  -- With a round for each byte that is left and one more, the loop ends, and so does the reading
  -- of every nested block.
  process_lines-Ends : (fuel : ℕ) → Later fuel
  unfolding process_lines
  process_lines-Ends zero bytes is_nested offset codes enough pos whole = absurd (omega arith)
  process_lines-Ends (suc fuel) bytes is_nested offset codes enough pos whole =
      elim (Bool-cases (ltb offset bytes.len)) [
        | inl more ↦
            rw (more, process_lines)
              (round-Ends bytes is_nested fuel offset codes (process_lines-Ends fuel) enough
                (ltb→lt offset bytes.len more) whole (round be bytes is_nested offset codes)
                (round-IsRound bytes is_nested offset codes whole be))
        | inr done ↦ rw (done, process_lines) (ok (finished codes), refl, returns tt)
      ]

  -- `process_block` ends on every slice, nested or not. If it does not panic, it returns either all
  -- its codes or, only if nested, the codes up to a terminator, which counts one block or more and
  -- ends a whole number of lines inside the slice.
  pub process_block-Ends :
      (bytes : Bytes) (is_nested : Bool)
      → Ends (IsProcessed is_nested bytes.len) (process_block be bytes is_nested)
  unfolding process_block
  process_block-Ends bytes is_nested =
      process_lines-Ends (bytes.len + 1) bytes is_nested 0 empty (omega arith) (omega arith) refl
