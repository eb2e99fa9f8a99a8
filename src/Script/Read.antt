-- ===== src/Script/Read.antt =====
-- `arguments` and `new_script` of src/script.rs: the events of a script are read from the data of
-- its file, or from the memory of the Wii, up to the event of zeros.
use brawllib_rs.Prelude.{
  ℕ, zero, suc, ◌+◌, ◌*◌, ◌/◌, ◌%◌, ◌^◌, Bool, true, false, ◌&&◌, List, [], ◌∷◌, ◌++◌, Option, none,
  some, ltb, leb, ◌==◌, if◌then◌else◌,
}
use brawllib_rs.Outcome.{Outcome, ok, panic, ◌>>=◌}
use brawllib_rs.Bytes.{Bytes}
use brawllib_rs.Slice.{FancySlice}
use brawllib_rs.WiiMemory.{WiiMemory, buffer_from}
use brawllib_rs.Script.Requirement.{new_requirement}
use brawllib_rs.Script.Argument.{
  variable_memory_type, variable_data_type, Argument, value, scalar, offset, file, variable,
  requirement, Event, Script,
}

-- `a + b` on i32, by their bits, where `b` is not negative: it overflows past the largest i32.
unfoldable pub add_i32 : ℕ → ℕ → Outcome ℕ
add_i32 a b =
    if ltb a (2 ^ 31)
    then (if ltb (a + b) (2 ^ 31) then ok (a + b) else panic)
    else ok ((a + b) % 2 ^ 32)

-- `n > len as i32` for a small `n`: the cast keeps 32 bits, and may be negative.
unfoldable pub exceeds : (n len : ℕ) → Bool
exceeds n len = let l = len % 2 ^ 32 in if ltb l (2 ^ 31) then ltb l n else true

-- `match ty { ... }`. `scalar_of` is `value as f32 / 60000.0`.
unfoldable pub argument :
    {F : Type 0} → (ℕ → F) → (ty v origin argument_offset : ℕ) → Outcome (Argument F)
unfolding add_i32
argument scalar_of ty v origin argument_offset =
    if ty == 0
    then ok (value v)
    else if ty == 1
    then ok (scalar (scalar_of v))
    else if ty == 2
    then (do
      o ← add_i32 origin argument_offset
      o' ← add_i32 o 4
      ok (offset (record { offset = v; origin = o' })))
    else if ty == 3
    then ok (Argument.bool (v == 1))
    else if ty == 4
    then ok (file v)
    else if ty == 5
    then ok (
        variable (record {
          memory_type = variable_memory_type (v / 2 ^ 28);
          data_type = variable_data_type (v / 2 ^ 24 % 16);
          address = v % 2 ^ 24;
        }))
    else if ty == 6
    then (let (flip, r) = new_requirement v in ok (requirement flip r))
    else ok (Argument.unknown ty v)

-- The words that fill unused space, 0xFADEF00D and 0xFADE0D8A.
unfoldable pub is_filler : ℕ → Bool
is_filler raw_id = if raw_id == 0xFADEF00D then true else raw_id == 0xFADE0D8A

module _ (fs : FancySlice) where
  -- `let argument_buffer = ...`
  unfoldable pub argument_buffer : Bytes → WiiMemory → ℕ → Outcome Bytes
  argument_buffer parent_data wii_memory argument_offset =
      if leb parent_data.len argument_offset
      then buffer_from wii_memory argument_offset
      else fs.relative_fancy_slice parent_data argument_offset

  -- `let buffer = ...`; `none` is the return of a script without events.
  unfoldable pub script_buffer : Bytes → WiiMemory → (offset : ℕ) → Outcome (Option Bytes)
  script_buffer parent_data wii_memory o =
      if o == 0
      then ok none
      else if o == 0xFFFF_FFFF
      then ok none
      else if ltb 0 o && ltb o (parent_data.len % 2 ^ 32)
      then (do b ← fs.relative_fancy_slice parent_data o; ok (some b))
      else if ltb o 0x8000_0000
      then ok none
      else (do b ← buffer_from wii_memory o; ok (some b))

module _ (fs : FancySlice) {F : Type 0} (scalar_of : ℕ → F) where
  -- `for i in 0..num_arguments`, from `i` on with `n` rounds left
  unfoldable pub arguments_from : ℕ → Bytes → (origin i : ℕ) → Outcome (List (Argument F))
  unfolding exceeds argument
  arguments_from zero bytes origin i = ok []
  arguments_from (suc n) bytes origin i = elim (exceeds (i * 8 + 8) bytes.len) [
    | true ↦ ok []
    | false ↦ do
      ty ← fs.u32_be bytes (i * 8)
      v ← fs.u32_be bytes (i * 8 + 4)
      a ← argument scalar_of ty v origin (i * 8)
      rest ← arguments_from n bytes origin (i + 1)
      ok (a ∷ rest)
  ]

  unfoldable pub arguments : Bytes → (origin num_arguments : ℕ) → Outcome (List (Argument F))
  arguments bytes origin num_arguments = arguments_from num_arguments bytes origin 0

  -- What one round of the loop adds to the events; `none` is the break at the end of the script.
  unfoldable pub read_event :
      Bytes → WiiMemory → Bytes → (event_offset : ℕ) → Outcome (Option (List (Event F)))
  unfolding arguments
  read_event parent_data wii_memory buffer event_offset = do
    namespace ← fs.u8 buffer event_offset
    code ← fs.u8 buffer (event_offset + 1)
    num_arguments ← fs.u8 buffer (event_offset + 2)
    unk1 ← fs.u8 buffer (event_offset + 3)
    raw_id ← fs.u32_be buffer event_offset
    if (code == 0) && (namespace == 0)
        then ok none
        else if is_filler raw_id
        then ok (some [])
        else (do
          argument_offset ← fs.u32_be buffer (event_offset + 4)
          bytes ← argument_buffer fs parent_data wii_memory argument_offset
          args ← arguments bytes argument_offset num_arguments
          ok (
              some (
                record { namespace = namespace; code = code; unk1 = unk1; arguments = args } ∷ [])))

  -- `loop { ... }`, with fuel; `none` means that the fuel ran out.
  unfoldable pub read_events :
      ℕ
      → Bytes
      → WiiMemory
      → Bytes
      → (event_offset : ℕ) → List (Event F)
      → Option (Outcome (List (Event F)))
  read_events zero parent_data wii_memory buffer event_offset events = none
  read_events (suc fuel) parent_data wii_memory buffer event_offset events =
      elim (read_event parent_data wii_memory buffer event_offset) [
        | panic ↦ some panic
        | ok none ↦ some (ok events)
        | ok (some more) ↦
            read_events fuel parent_data wii_memory buffer (event_offset + 8) (events ++ more)
      ]

  -- Every round reads inside the buffer, so a round for each byte and one more is enough. A slice
  -- has fewer than 2 ^ 32 bytes, so that the u32 `event_offset` does not overflow.
  unfoldable pub new_script : Bytes → (offset : ℕ) → WiiMemory → Option (Outcome (Script F))
  new_script parent_data o wii_memory = elim (script_buffer fs parent_data wii_memory o) [
    | panic ↦ some panic
    | ok none ↦ some (ok (record { events = []; offset = o }))
    | ok (some buffer) ↦ elim (read_events (buffer.len + 1) parent_data wii_memory buffer 0 []) [
      | none ↦ none
      | some panic ↦ some panic
      | some (ok events) ↦ some (ok (record { events = events; offset = o }))
    ]
  ]
