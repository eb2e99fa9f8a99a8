-- ===== src/Wiird/Flattening.antt =====
-- The tree that `process_block` of src/wiird.rs builds has every line of its slice, in order.
use mathlib.Core.List.{append-nil, append_assoc}
use brawllib_rs.Prelude.{
  ℕ, ◌+◌, ◌≤◌, ◌≡◌, sym, refl, inl, inr, Bool, true, false, List, [], ◌++◌, some, Bool-cases,
  if◌then◌else◌, ◌==◌,
}
use brawllib_rs.Outcome.{ok, Post, returns, Post-bind, Post-eq}
use brawllib_rs.Bytes.{Bytes, BigEndian, slice_from}
use brawllib_rs.Wiird.Block.{
  IfTest, WiirdCode, WiirdBlock, empty, cons, finite, ProcessedBlock, finished, end_if, push,
}
use brawllib_rs.Wiird.Entry.{Entry, code, skip, failure, reader}
use brawllib_rs.Wiird.Parse.{
  Exit, go, leave, Round, exit, nest, read_line, end_line, round, process_lines,
}
use brawllib_rs.Wiird.Listing.{Item, flatten, flatten_code, Lists, line}

pub flatten-push :
    (block : WiirdBlock) (c : WiirdCode) → flatten (push block c) ≡ flatten block ++ flatten_code c
unfolding flatten push
flatten-push empty c = append-nil (flatten_code c)
flatten-push (cons x block) c =
    rw (flatten-push block c) (sym (append_assoc (flatten_code x) (flatten block) (flatten_code c)))

module _ (be : BigEndian) (bytes : Bytes) where
  -- How a block comes to be finished: its slice is used up; a line has an unknown code or flag; or
  -- the block of a test has no end, and then nothing is kept.
  pub data Finishes : WiirdBlock → Type 0 where
    complete : {o : ℕ} {b : WiirdBlock} → Lists be bytes o (flatten b) → bytes.len ≤ o → Finishes b
    stopped :
        {o : ℕ} {b : WiirdBlock}
        → Lists be bytes o (flatten b)
        → read_line (reader be bytes o) ≡ ok failure
        → Finishes b
    unended :
        {o : ℕ} {xs : List Item} {t : IfTest} {part : Bytes} {b : WiirdBlock} (fuel : ℕ)
        → Lists be bytes o xs
        → read_line (reader be bytes o) ≡ ok (Entry.if_statement t)
        → slice_from bytes (o + 8) ≡ ok part
        → process_lines be fuel part true 0 empty ≡ some (ok (finished b))
        → Finishes empty

  abbrev pub IsRead : ProcessedBlock → Type 0
  IsRead (finished b) = Finishes b
  IsRead (end_if count b n _ _) = Lists be bytes n (flatten b)

  abbrev pub IsReadExit : Exit → Type 0
  IsReadExit (go o codes) = Lists be bytes o (flatten codes)
  IsReadExit (leave r) = IsRead r

-- A reset, which leaves no item.
pub reset-Lists :
    (be : BigEndian) (bytes : Bytes) {n : ℕ} (codes : WiirdBlock) (base pointer : ℕ)
    → Lists be bytes n (flatten codes)
    → Lists be bytes n (flatten (push codes (WiirdCode.reset_address_high base pointer)))
unfolding flatten_code
reset-Lists be bytes codes base pointer h =
    rw (flatten-push codes (WiirdCode.reset_address_high base pointer), append-nil) h

module _ (be : BigEndian) (bytes : Bytes) (is_nested : Bool) (offset : ℕ) (codes : WiirdBlock)
    (before : Lists be bytes offset (flatten codes)) where
  -- What a round leaves. A test keeps the line that it was read from.
  abbrev pub IsReadRound : Round → Type 0
  IsReadRound (exit x) = IsReadExit be bytes x
  IsReadRound (nest t part) =
      (read_line (reader be bytes offset) ≡ ok (Entry.if_statement t))
      × (slice_from bytes (offset + 8) ≡ ok part)

  silent : {n : ℕ} → Lists be bytes n (flatten codes ++ []) → Lists be bytes n (flatten codes)
  silent h = rw (← append-nil (flatten codes)) h

  pushed :
      {n : ℕ} (c : WiirdCode)
      → Lists be bytes n (flatten codes ++ flatten_code c)
      → Lists be bytes n (flatten (push codes c))
  pushed c h = rw (flatten-push codes c) h

  -- E2: what is pushed of it is its one item, if it has one, and a code without items.
  endif-IsRead :
      (e : Bool) (count base pointer : ℕ) (codes' : WiirdBlock)
      → codes' ≡ (if e then push codes (WiirdCode.else_code count base pointer) else codes)
      → read_line (reader be bytes offset) ≡ ok (Entry.endif e count base pointer)
      → Lists be bytes (offset + 8) (flatten codes')
  unfolding flatten_code
  endif-IsRead true count base pointer codes' eq read =
      rw eq (pushed (WiirdCode.else_code count base pointer) (line before read tt))
  endif-IsRead false count base pointer codes' eq read = rw eq (silent (line before read tt))

  endif_exit-IsRead :
      (count base pointer : ℕ) (codes' : WiirdBlock)
      → Lists be bytes (offset + 8) (flatten codes')
      → IsReadExit be bytes (
          if is_nested
          then (if count == 0
              then go (offset + 8) codes'
              else leave (end_if (finite count) codes' (offset + 8) base pointer))
          else go (offset + 8) (push codes' (WiirdCode.reset_address_high base pointer)))
  endif_exit-IsRead count base pointer codes' h = elim (Bool-cases is_nested) [
    | inr e ↦ rw e (reset-Lists be bytes codes' base pointer h)
    | inl e ↦ rw e (elim (Bool-cases (count == 0)) [ inl z ↦ rw z h | inr z ↦ rw z h ])
  ]

  end_line-IsRead :
      (e : Entry)
      → read_line (reader be bytes offset) ≡ ok e
      → Post IsReadRound (end_line bytes is_nested offset codes e)
  unfolding end_line flatten_code
  end_line-IsRead (code c n) read = returns (pushed c (line before read tt))
  end_line-IsRead (skip n) read = returns (silent (line before read tt))
  end_line-IsRead (Entry.if_statement t) read =
      Post-bind (Post-eq (slice_from bytes (offset + 8))) λ part sliced. returns (read, sliced)
  end_line-IsRead (Entry.reset_address_high base pointer) read =
      returns (elim (Bool-cases is_nested) [
        | inl h ↦ rw h (silent (line before read tt))
        | inr h ↦ rw h (reset-Lists be bytes codes base pointer (silent (line before read tt)))
      ])
  end_line-IsRead (Entry.endif e count base pointer) read =
      returns
        (endif_exit-IsRead count base pointer _ (endif-IsRead e count base pointer _ refl read))
  end_line-IsRead failure read = returns (stopped before read)

  pub round-IsRead : Post IsReadRound (round be bytes is_nested offset codes)
  unfolding round
  round-IsRead = Post-bind (Post-eq (read_line (reader be bytes offset))) end_line-IsRead
