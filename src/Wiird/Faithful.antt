-- ===== src/Wiird/Faithful.antt =====
-- `wiird_codes` of src/wiird.rs returns a tree with the lines of its data, in order.
use mathlib.Core.List.{append-nil, append_assoc}
use brawllib_rs.Prelude.{
  ℕ, zero, suc, ◌+◌, ◌≡◌, refl, inl, inr, Bool, true, false, [], ◌∷◌, Option, none, some, ◌&&◌, ltb,
  ltb→le, Bool-cases,
}
use brawllib_rs.Outcome.{Ends, Outcome, ok, panic, Post, Post-ok, returns, panics, Post-then}
use brawllib_rs.Bytes.{Bytes, BigEndian, slice_from}
use brawllib_rs.Wiird.Block.{
  IfTest, WiirdCode, WiirdBlock, empty, no_else, ProcessedBlock, finished, end_if, push,
}
use brawllib_rs.Wiird.Entry.{Entry, reader}
use brawllib_rs.Wiird.Parse.{
  Exit, go, leave, Round, exit, nest, read_line, decrement, more_endif, end_test, process_lines,
  process_block, wiird_codes,
}
use brawllib_rs.Wiird.Listing.{
  test, flatten, flatten_code, flatten_else, Lists, start, line, Lists-append,
}
use brawllib_rs.Wiird.Flattening.{
  flatten-push, reset-Lists, Finishes, complete, unended, IsRead, IsReadExit, IsReadRound,
  round-IsRead,
}
use brawllib_rs.Wiird.Terminates.{IsProcessed, process_block-Ends}

-- A result of the loop satisfies `P`, if there is one.
abbrev Reading {ℓ} : {A : Type ℓ} → (A → Type 0) → Option (Outcome A) → Type ℓ
Reading P none = Unit
Reading P (some r) = Post P r

module _ (be : BigEndian) (bytes : Bytes) (is_nested : Bool) (offset : ℕ) (codes : WiirdBlock)
    (before : Lists be bytes offset (flatten codes)) (t : IfTest) (part : Bytes)
    (read : read_line (reader be bytes offset) ≡ ok (Entry.if_statement t))
    (sliced : slice_from bytes (offset + 8) ≡ ok part) where
  -- The test's line and the lines of its block are those of the code that is pushed for both.
  if_statement-Lists :
      (b : WiirdBlock) (n base pointer : ℕ)
      → Lists be part n (flatten b)
      → Lists be bytes
          (offset + 8 + n)
          (flatten (push codes (WiirdCode.if_statement t b no_else base pointer)))
  unfolding flatten_code flatten_else
  if_statement-Lists b n base pointer h =
      rw
        (
          flatten-push codes (WiirdCode.if_statement t b no_else base pointer),
          append-nil,
          ← append_assoc (flatten codes) (test t ∷ []) (flatten b),
        )
        (Lists-append be bytes part sliced (line before read tt) h)

  end_test-IsRead :
      (fuel : ℕ) (inner : ProcessedBlock)
      → process_lines be fuel part true 0 empty ≡ some (ok inner)
      → IsRead be part inner
      → Post (IsReadExit be bytes) (end_test is_nested (offset + 8) codes t inner)
  unfolding end_test
  end_test-IsRead fuel (finished b) eq h = returns (unended fuel before read sliced eq)
  end_test-IsRead fuel (end_if count b n base pointer) eq h = Post-then (decrement count) λ count'.
      let after = if_statement-Lists b n base pointer h in
      returns (elim (Bool-cases (more_endif count' && is_nested)) [
        | inl e ↦ rw e after
        | inr e ↦ rw e (reset-Lists be bytes _ base pointer after)
      ])

module _ (be : BigEndian) where
  abbrev Earlier : ℕ → Type 0
  Earlier fuel =
      (bytes : Bytes) (is_nested : Bool) (offset : ℕ) (codes : WiirdBlock)
      → Lists be bytes offset (flatten codes)
      → Reading (IsRead be bytes) (process_lines be fuel bytes is_nested offset codes)

  module _ (bytes : Bytes) (is_nested : Bool) (fuel offset : ℕ) (codes : WiirdBlock)
      (rest : Earlier fuel) (before : Lists be bytes offset (flatten codes)) where
    exit-Reading :
        (x : Outcome Exit)
        → Post (IsReadExit be bytes) x
        → Reading (IsRead be bytes) (elim x [
          | panic ↦ some panic
          | ok (leave r) ↦ some (ok r)
          | ok (go o c) ↦ process_lines be fuel bytes is_nested o c
        ])
    exit-Reading panic h = panics
    exit-Reading (ok (leave r)) h = returns (Post-ok h)
    exit-Reading (ok (go o c)) h = rest bytes is_nested o c (Post-ok h)

    nest-Reading :
        (t : IfTest) (part : Bytes) (inner : Option (Outcome ProcessedBlock))
        → read_line (reader be bytes offset) ≡ ok (Entry.if_statement t)
        → slice_from bytes (offset + 8) ≡ ok part
        → process_lines be fuel part true 0 empty ≡ inner
        → Reading (IsRead be part) inner
        → Reading (IsRead be bytes) (elim inner [
          | none ↦ none
          | some panic ↦ some panic
          | some (ok inner) ↦ elim (end_test is_nested (offset + 8) codes t inner) [
            | panic ↦ some panic
            | ok (leave r) ↦ some (ok r)
            | ok (go o c) ↦ process_lines be fuel bytes is_nested o c
          ]
        ])
    nest-Reading t part none read sliced eq h = tt
    nest-Reading t part (some panic) read sliced eq h = panics
    nest-Reading t part (some (ok inner)) read sliced eq h = exit-Reading _ (
        end_test-IsRead be bytes is_nested offset codes before t part read sliced fuel inner eq
          (Post-ok h))

    round-Reading :
        (r : Outcome Round)
        → Post (IsReadRound be bytes is_nested offset codes before) r
        → Reading (IsRead be bytes) (elim r [
          | panic ↦ some panic
          | ok (exit (leave r)) ↦ some (ok r)
          | ok (exit (go o c)) ↦ process_lines be fuel bytes is_nested o c
          | ok (nest t part) ↦ elim (process_lines be fuel part true 0 empty) [
            | none ↦ none
            | some panic ↦ some panic
            | some (ok inner) ↦ elim (end_test is_nested (offset + 8) codes t inner) [
              | panic ↦ some panic
              | ok (leave r) ↦ some (ok r)
              | ok (go o c) ↦ process_lines be fuel bytes is_nested o c
            ]
          ]
        ])
    unfolding flatten
    round-Reading panic h = panics
    round-Reading (ok (exit (leave r))) h = exit-Reading (ok (leave r)) (returns (Post-ok h))
    round-Reading (ok (exit (go o c))) h = exit-Reading (ok (go o c)) (returns (Post-ok h))
    round-Reading (ok (nest t part)) h =
        nest-Reading t part _ (Post-ok h).0 (Post-ok h).1 refl (rest part true 0 empty start)

  process_lines-Reading : (fuel : ℕ) → Earlier fuel
  unfolding process_lines flatten
  process_lines-Reading zero bytes is_nested offset codes before = tt
  process_lines-Reading (suc fuel) bytes is_nested offset codes before =
      elim (Bool-cases (ltb offset bytes.len)) [
        | inl more ↦
            rw (more, process_lines)
              (round-Reading bytes is_nested fuel offset codes (process_lines-Reading fuel) before _
                (round-IsRead be bytes is_nested offset codes before))
        | inr done ↦ rw (done, process_lines) (returns (complete before (ltb→le _ _ done)))
      ]

  -- A block that is not nested is never left by a terminator.
  finished-Ends :
      (bytes : Bytes) (result : Option (Outcome ProcessedBlock))
      → Ends (IsProcessed false bytes.len) result
      → Reading (IsRead be bytes) result
      → Ends (Finishes be bytes) (elim result [
        | none ↦ none
        | some panic ↦ some panic
        | some (ok (finished block)) ↦ some (ok block)
        | some (ok (end_if _ _ _ _ _)) ↦ some (ok empty)
      ])
  finished-Ends bytes none (r, e, p) h = absurd cc
  finished-Ends bytes (some panic) ends h = (panic, refl, panics)
  finished-Ends bytes (some (ok (finished block))) ends h = (ok block, refl, returns (Post-ok h))
  finished-Ends bytes (some (ok (end_if c b n x y))) (r, e, p) h =
      let same : r ≡ ok (end_if c b n x y) = cc in
      let p' : Post (IsProcessed false bytes.len) (ok (end_if c b n x y)) = rw (← same) p in
      let nested : false ≡ true = (Post-ok p').0 in absurd cc

  -- `wiird_codes` ends on every slice. If it does not panic, the codes and tests of the block that
  -- it returns, taken in order without the nesting, are those of the lines of the slice, one after
  -- the other, up to its end or to the first line with an unknown code or flag; or the block of a
  -- test has no end, and the result is empty.
  pub wiird_codes-Finishes : (bytes : Bytes) → Ends (Finishes be bytes) (wiird_codes be bytes)
  unfolding wiird_codes process_block flatten
  wiird_codes-Finishes bytes =
      finished-Ends bytes _ (process_block-Ends be bytes false)
        (process_lines-Reading (bytes.len + 1) bytes false 0 empty start)
