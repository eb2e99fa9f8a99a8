-- ===== src/Script/ReadLaws.antt =====
-- The loop of `new_script` in src/script.rs ends, and the events that it reads are well formed.
use brawllib_rs.Prelude.{
  ◌^◌, ℕ, zero, suc, ◌+◌, ◌*◌, ◌≤◌, ◌<◌, ◌≡◌, inl, inr, false, ◌&&◌, List, length, All, Option,
  none, some, ltb, leb, ltb→lt, Bool-cases, ◌==◌, arith,
}
use brawllib_rs.Outcome.{Post, returns, panics, Post-bind, Post-then, Post-if}
use brawllib_rs.Bytes.{Bytes, get, slice_from}
use brawllib_rs.Bytes.Words.{IsBytes, word_at-lt}
use brawllib_rs.Slice.{FancySlice}
use brawllib_rs.WiiMemory.{
  Region, in_mem1, in_mem2, unmapped, region, buffer_region, WiiMemory, buffer_from,
}
use brawllib_rs.WiiMemory.View.{IsWii}
use brawllib_rs.Script.Argument.{Argument, value, offset, Event, Script}
use brawllib_rs.Script.Read.{
  add_i32, exceeds, argument, arguments_from, arguments, argument_buffer, is_filler, read_event,
}

get-lt : (b : Bytes) (k : ℕ) → IsBytes b → Post (λ v. (v < 256) × (k < b.len)) (get b k)
unfolding get
get-lt b k bytes = elim (Bool-cases (ltb k b.len)) [
  | inl h ↦ rw h (returns (bytes k, ltb→lt _ _ h))
  | inr h ↦ rw h panics
]

pub slice_from-IsBytes : (b : Bytes) (k : ℕ) → IsBytes b → Post IsBytes (slice_from b k)
unfolding slice_from
slice_from-IsBytes b k bytes = Post-if (leb k b.len) (returns λ i. bytes (k + i)) panics

pub buffer_from-IsBytes : (m : WiiMemory) (a : ℕ) → IsWii m → Post IsBytes (buffer_from m a)
unfolding buffer_from buffer_region
buffer_from-IsBytes m a wii = at (region a)
  where
    at : (r : Region) → Post IsBytes (buffer_region m r)
    at (in_mem1 k) = slice_from-IsBytes m.mem1 k wii.bytes1
    at (in_mem2 k) = slice_from-IsBytes m.mem2 k wii.bytes2
    at unmapped = returns λ i. omega arith

-- The values that stand for offsets fit in 32 bits.
abbrev pub IsArgument : {F : Type 0} → Argument F → Type 0
IsArgument (value v) = v < 2 ^ 32
IsArgument (offset o) = o.offset < 2 ^ 32
IsArgument a = Unit

-- What `new_script` keeps an event for: it is not the end, and its arguments fit its `raw_id`.
abbrev pub IsEvent : {F : Type 0} → Event F → Type 0
IsEvent e =
    (((e.code == 0) && (e.namespace == 0)) ≡ false)
    × (length e.arguments < 256)
    × All IsArgument e.arguments

-- A script read at an offset.
abbrev pub IsScript : {F : Type 0} → ℕ → Script F → Type 0
IsScript o script = (script.offset ≡ o) × All IsEvent script.events

module _ (fs : FancySlice) {F : Type 0} (scalar_of : ℕ → F) where
  u32-lt : (b : Bytes) (k : ℕ) → IsBytes b → Post (λ v. v < 2 ^ 32) (fs.u32_be b k)
  u32-lt b k bytes =
      rw (fs.u32_be_lem b k)
        (Post-if (leb (k + 4) b.len) (returns (word_at-lt b.at k bytes)) panics)

  argument-IsArgument :
      (ty v origin o : ℕ) → v < 2 ^ 32 → Post IsArgument (argument scalar_of ty v origin o)
  unfolding argument
  argument-IsArgument ty v origin o small = Post-if (ty == 0) (returns small) (
      Post-if (ty == 1) (returns tt) (
        Post-if (ty == 2)
          (Post-then (add_i32 origin o) λ a. Post-then (add_i32 a 4) λ b. returns small)
          (Post-if (ty == 3) (returns tt) (
            Post-if (ty == 4) (returns tt)
              (Post-if (ty == 5) (returns tt) (Post-if (ty == 6) (returns tt) (returns tt)))))))

  arguments_from-IsArguments :
      (n : ℕ) (bytes : Bytes) (origin i : ℕ)
      → IsBytes bytes
      → Post
          (λ args. (length args ≤ n) × All IsArgument args)
          (arguments_from fs scalar_of n bytes origin i)
  unfolding arguments_from
  arguments_from-IsArguments zero bytes origin i h = returns (omega arith, tt)
  arguments_from-IsArguments (suc n) bytes origin i is_bytes =
      elim (Bool-cases (exceeds (i * 8 + 8) bytes.len)) [
        | inl h ↦ rw (h, arguments_from) (returns (omega arith, tt))
        | inr h ↦
            rw (h, arguments_from)
              (Post-then (fs.u32_be bytes (i * 8)) λ ty.
                Post-bind (u32-lt bytes (i * 8 + 4) is_bytes) λ v small.
                  Post-bind (argument-IsArgument ty v origin (i * 8) small) λ a is_arg.
                    Post-bind (arguments_from-IsArguments n bytes origin (i + 1) is_bytes)
                      λ rest h. returns (omega (arith, h.0), (is_arg, h.1)))
      ]

  argument_buffer-IsBytes :
      (parent_data : Bytes) (wii_memory : WiiMemory)
      → IsBytes parent_data
      → IsWii wii_memory
      → (o : ℕ) → Post IsBytes (argument_buffer fs parent_data wii_memory o)
  unfolding argument_buffer
  argument_buffer-IsBytes parent_data wii_memory parent_bytes wii o =
      Post-if (leb parent_data.len o) (buffer_from-IsBytes wii_memory o wii)
        (rw (fs.relative_fancy_slice_lem) (slice_from-IsBytes parent_data o parent_bytes))

  u8-lt : (b : Bytes) (k : ℕ) → IsBytes b → Post (λ v. (v < 256) × (k < b.len)) (fs.u8 b k)
  u8-lt b k bytes = rw (fs.u8_lem b k) (get-lt b k bytes)

  -- A round adds well-formed events, and reads at an offset inside the buffer.
  abbrev pub IsRound : Bytes → ℕ → Option (List (Event F)) → Type 0
  IsRound buffer event_offset none = Unit
  IsRound buffer event_offset (some more) = All IsEvent more × (event_offset < buffer.len)

  pub read_event-IsRound :
      (parent_data : Bytes) (wii_memory : WiiMemory)
      → IsBytes parent_data
      → IsWii wii_memory
      → (buffer : Bytes) (event_offset : ℕ) → IsBytes buffer
      → Post
          (IsRound buffer event_offset)
          (read_event fs scalar_of parent_data wii_memory buffer event_offset)
  unfolding read_event arguments
  read_event-IsRound parent_data wii_memory parent_bytes wii buffer event_offset bytes =
      Post-bind (u8-lt buffer event_offset bytes) λ namespace h.
        Post-then (fs.u8 buffer (event_offset + 1)) λ code.
          Post-bind (u8-lt buffer (event_offset + 2) bytes) λ num_arguments k.
            Post-then (fs.u8 buffer (event_offset + 3)) λ unk1.
              Post-then (fs.u32_be buffer event_offset) λ id.
                elim (Bool-cases ((code == 0) && (namespace == 0))) [
                  | inl e ↦ rw e (returns tt)
                  | inr e ↦ rw e (
                      Post-if (is_filler id) (returns (tt, h.1)) (
                        Post-then (fs.u32_be buffer (event_offset + 4)) λ argument_offset.
                          Post-bind
                            (argument_buffer-IsBytes parent_data wii_memory parent_bytes wii
                              argument_offset)
                            λ b is_bytes.
                              Post-bind
                                (arguments_from-IsArguments num_arguments b argument_offset 0
                                  is_bytes)
                                λ args len.
                                  returns (((e, omega (arith, len.0, k.0), len.1), tt), h.1)))
                ]
