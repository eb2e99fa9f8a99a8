-- ===== src/WiirdRunner/TestLine.antt =====
-- Codes 20 to 2E of src/wiird_runner.rs by the bytes of their line: what a test compares, and the block
-- that it opens.
use brawllib_rs.Prelude.{
  ℕ, ◌+◌, ◌*◌, ◌/◌, ◌%◌, ◌^◌, ◌<◌, ◌≤◌, ◌≡◌, refl, ap, ◌∙◌, inl, inr, Bool, true, false, not, List,
  ◌∷◌, ltb, leb, ◌==◌, if◌then◌else◌, arith, Bool-cases,
}
use brawllib_rs.Outcome.{ok}
use brawllib_rs.Bytes.{Bytes, BigEndian}
use brawllib_rs.Bytes.Words.{word_at, u16_at_lem, u32_at_lem}
use brawllib_rs.WiiMemory.{WiiMemory}
use brawllib_rs.WiiMemory.View.{IsWii, view, HasRoom}
use brawllib_rs.WiiMemory.Access.{read_u32-view}
use brawllib_rs.Wiird.Code.{
  Code, classify, Comparison, is_equal, is_not_equal, is_greater_than, is_less_than, is_equal_mask,
  is_not_equal_mask, is_greater_than_mask, is_less_than_mask,
}
use brawllib_rs.WiirdRunner.State.{State, Line, next, last_or_true, pop, advance, target}
use brawllib_rs.WiirdRunner.Condition.{compare_memory, if_statement}
use brawllib_rs.WiirdRunner.Step.{handle, step}
use brawllib_rs.WiirdRunner.Round.{place, target_lem, line_at, step-handle}

-- What the tests of code 20 + 2 k say of the value of their line and the word in memory. Those from 28
-- on, which compare under a mask, never hold.
abbrev pub holds : (k value word : ℕ) → Bool
holds k value word =
    if k == 0
    then value == word
    else if k == 1
    then not (value == word)
    else if k == 2
    then ltb value word
    else if k == 3
    then ltb word value
    else false

module _ (codeset : Bytes) (s : State) where
  abbrev pub word : ℕ
  word = word_at codeset.at s.offset

  -- The address that a test reads, without its lowest bit.
  abbrev pub tested : ℕ
  tested = place (codeset.at s.offset) (word % 2 ^ 25 / 2 * 2) s

  -- What is below the new flag: a test with an odd address closes the block before it.
  abbrev pub below : List Bool
  below = if word % 2 ^ 25 % 2 == 1 then pop s.execution_stack else s.execution_stack

  -- The new flag. In a disabled block it repeats the one below it.
  abbrev pub opened : Bool
  opened =
      if last_or_true s.execution_stack
      then holds (codeset.at s.offset % 16 / 2) (word_at codeset.at (s.offset + 4))
          (word_at (view s.memory) tested)
      else last_or_true below

-- The comparison of code 20 + 2 k.
abbrev comparison_of : ℕ → Comparison
comparison_of k =
    if k == 0
    then is_equal
    else if k == 1
    then is_not_equal
    else if k == 2
    then is_greater_than
    else if k == 3
    then is_less_than
    else if k == 4
    then is_equal_mask
    else if k == 5
    then is_not_equal_mask
    else if k == 6
    then is_greater_than_mask
    else is_less_than_mask

classify-comparison_of :
    (k : ℕ) → k < 8 → classify (0x20 + 2 * k) ≡ Code.if_statement (comparison_of k)
unfolding classify
classify-comparison_of k small = ground arith

compare_lem :
    (be : BigEndian) (k value : ℕ) (m : WiiMemory) (a : ℕ)
    → IsWii m
    → HasRoom a 4
    → compare_memory be (comparison_of k) value m a ≡ ok (holds k value (word_at (view m) a))
unfolding compare_memory
compare_lem be k value m a wii room =
    let read = read_u32-view be {m = m} wii a room in
    elim (Bool-cases (k == 0)) [
      | inl h0 ↦ rw (h0, read) refl
      | inr h0 ↦ elim (Bool-cases (k == 1)) [
        | inl h1 ↦ rw (h0, h1, read) refl
        | inr h1 ↦ elim (Bool-cases (k == 2)) [
          | inl h2 ↦ rw (h0, h1, h2, read) refl
          | inr h2 ↦ elim (Bool-cases (k == 3)) [
            | inl h3 ↦ rw (h0, h1, h2, h3, read) refl
            | inr h3 ↦ elim (Bool-cases (k == 4)) [
              | inl h4 ↦ rw (h0, h1, h2, h3, h4) refl
              | inr h4 ↦ elim (Bool-cases (k == 5)) [
                | inl h5 ↦ rw (h0, h1, h2, h3, h4, h5) refl
                | inr h5 ↦ elim (Bool-cases (k == 6)) [
                  | inl h6 ↦ rw (h0, h1, h2, h3, h4, h5, h6) refl
                  | inr h6 ↦ rw (h0, h1, h2, h3, h4, h5, h6) refl
                ]
              ]
            ]
          ]
        ]
      ]
    ]

module _ (be : BigEndian) (codeset : Bytes) (line : Line) (s : State) where
  abbrev under : List Bool
  under = if line.address % 2 == 1 then pop s.execution_stack else s.execution_stack

  -- A test with its operands read, its address computed and its flag, if it is executed, found.
  if_statement_lem :
      (c : Comparison) (a : ℕ) (flag : Bool)
      → s.offset + 8 ≤ codeset.len
      → target line.use_base_address (line.address / 2 * 2) s ≡ ok a
      → compare_memory be c (word_at codeset.at (s.offset + 4)) s.memory a ≡ ok flag
      → if_statement be codeset line s c
        ≡ ok (
            next (record s {
              offset = s.offset + 8;
              execution_stack = (if line.execute then flag else last_or_true under) ∷ under;
            }))
  unfolding if_statement advance
  if_statement_lem c a flag fits at compared =
      let word_fits : leb (s.offset + 4 + 4) codeset.len ≡ true = ground arith in
      let high_fits : leb (s.offset + 4 + 2) codeset.len ≡ true = ground arith in
      let low_fits : leb (s.offset + 6 + 2) codeset.len ≡ true = ground arith in
      rw
        (
          u32_at_lem be codeset (s.offset + 4),
          word_fits,
          u16_at_lem be codeset (s.offset + 4),
          high_fits,
          u16_at_lem be codeset (s.offset + 6),
          low_fits,
          at,
          compared,
        )
        (elim (Bool-cases line.execute) [ inl e ↦ rw e refl | inr e ↦ rw e refl ])

module _ (be : BigEndian) (codeset : Bytes) (location : ℕ) (s : State) where
  -- A round at a line whose first byte is one of 20 to 2E, but for its bits 0 and 4, and whose address has
  -- a word in one memory: it opens a block and changes nothing else but the offset. While execution is
  -- enabled, the flag of the block says whether that word is equal, not equal, greater or less than
  -- the value of the line, by the number of the code, and it is false for the four masked tests. While it is
  -- disabled, the flag repeats the one below it. The address is relative to the pointer address if bit 4
  -- is set, and if it is odd, the block before is closed first.
  pub step-opens :
      IsWii s.memory
      → codeset.at s.offset / 32 ≡ 1
      → s.offset + 8 ≤ codeset.len
      → HasRoom (tested codeset s) 4
      → step be codeset location s
        ≡ ok (
            next (record s {
              offset = s.offset + 8;
              execution_stack = opened codeset s ∷ below codeset s;
            }))
  unfolding handle
  step-opens wii same fits room =
      let k = codeset.at s.offset % 16 / 2 in
      let small : k < 8 = omega arith in
      let line = line_at be codeset location s in
      let a = tested codeset s in
      let at : target line.use_base_address (line.address / 2 * 2) s ≡ ok a =
        target_lem (codeset.at s.offset) (line.address / 2 * 2) s
          (elim room [ inl h ↦ omega (arith, h.1) | inr h ↦ omega (arith, h.1) ]) in
      step-handle be codeset location s (0x20 + 2 * k) (omega arith) (omega arith)
        (omega (arith, same), omega arith) (omega (arith, fits))
      ∙ (ap (λ c. handle be codeset location c line s) (classify-comparison_of k small)
          ∙ if_statement_lem be codeset line s (comparison_of k) a
              (holds k (word_at codeset.at (s.offset + 4)) (word_at (view s.memory) a)) fits at
              (compare_lem be k (word_at codeset.at (s.offset + 4)) s.memory a wii room))
