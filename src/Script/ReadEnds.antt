-- ===== src/Script/ReadEnds.antt =====
-- `new_script` of src/script.rs ends on all data.
use brawllib_rs.Prelude.{
  ℕ, zero, suc, ◌+◌, ◌%◌, ◌^◌, ◌<◌, refl, ◌&&◌, List, [], ◌++◌, All, All-append, Option, none, some,
  ltb, ◌==◌, arith,
}
use brawllib_rs.Outcome.{
  Ends, Outcome, ok, panic, Post, returns, panics, Post-bind, Post-if, Post-ok,
}
use brawllib_rs.Bytes.{Bytes}
use brawllib_rs.Bytes.Words.{IsBytes}
use brawllib_rs.Slice.{FancySlice}
use brawllib_rs.WiiMemory.{WiiMemory}
use brawllib_rs.WiiMemory.View.{IsWii}
use brawllib_rs.Script.Argument.{Event}
use brawllib_rs.Script.Read.{read_events, script_buffer, new_script}
use brawllib_rs.Script.ReadLaws.{
  IsScript, IsEvent, IsRound, read_event-IsRound, slice_from-IsBytes, buffer_from-IsBytes,
}

module _ (fs : FancySlice) (parent_data : Bytes) (wii_memory : WiiMemory)
    (parent_bytes : IsBytes parent_data) (wii : IsWii wii_memory) where
  abbrev IsBuffer : Option Bytes → Type 0
  IsBuffer none = Unit
  IsBuffer (some b) = IsBytes b

  script_buffer-IsBuffer : (o : ℕ) → Post IsBuffer (script_buffer fs parent_data wii_memory o)
  unfolding script_buffer
  script_buffer-IsBuffer o = Post-if (o == 0) (returns tt) (
      Post-if (o == 0xFFFF_FFFF) (returns tt) (
        Post-if (ltb 0 o && ltb o (parent_data.len % 2 ^ 32))
          (rw (fs.relative_fancy_slice_lem)
            (Post-bind (slice_from-IsBytes parent_data o parent_bytes) λ b h. returns h))
          (Post-if (ltb o 0x8000_0000) (returns tt)
            (Post-bind (buffer_from-IsBytes wii_memory o wii) λ b h. returns h))))

  module _ {F : Type 0} (scalar_of : ℕ → F) where
    round-Ends :
        (fuel : ℕ) (buffer : Bytes) (event_offset : ℕ) (events : List (Event F))
        → buffer.len < suc fuel + event_offset
        → All IsEvent events
        → ((events : List (Event F))
            → buffer.len < fuel + (event_offset + 8)
            → 0 < fuel
            → All IsEvent events
            → Ends (All IsEvent) (
                read_events fs scalar_of fuel parent_data wii_memory buffer
                  (event_offset + 8)
                  events))
        → {r : Outcome (Option (List (Event F)))}
        → Post (IsRound fs scalar_of buffer event_offset) r
        → Ends (All IsEvent) (elim r [
          | panic ↦ some panic
          | ok none ↦ some (ok events)
          | ok (some more) ↦
              read_events fs scalar_of fuel parent_data wii_memory buffer
                (event_offset + 8)
                (events ++ more)
        ])
    round-Ends fuel buffer o events enough wf later panics = (panic, refl, panics)
    round-Ends fuel buffer o events enough wf later (returns {a = none} h) =
        (ok events, refl, returns wf)
    round-Ends fuel buffer o events enough wf later (returns {a = some more} h) =
        later (events ++ more) (omega arith) (omega (arith, h.1))
          (All-append IsEvent events more wf h.0)

    read_events-Ends :
        (fuel : ℕ) (buffer : Bytes) (event_offset : ℕ) (events : List (Event F))
        → IsBytes buffer
        → buffer.len < fuel + event_offset
        → 0 < fuel
        → All IsEvent events
        → Ends
            (All IsEvent)
            (read_events fs scalar_of fuel parent_data wii_memory buffer event_offset events)
    unfolding read_events
    read_events-Ends zero buffer o events bytes enough pos wf = absurd (omega arith)
    read_events-Ends (suc fuel) buffer o events bytes enough pos wf =
        (round-Ends fuel buffer o events enough wf
          (λ events'. read_events-Ends fuel buffer (o + 8) events' bytes)
          (read_event-IsRound fs scalar_of parent_data wii_memory parent_bytes wii buffer o bytes))

    buffer-Ends :
        (o : ℕ) (b : Outcome (Option Bytes))
        → Post IsBuffer b
        → Ends (IsScript o) (elim b [
          | panic ↦ some panic
          | ok none ↦ some (ok (record { events = []; offset = o }))
          | ok (some buffer) ↦
              elim (read_events fs scalar_of (buffer.len + 1) parent_data wii_memory buffer 0 []) [
                | none ↦ none
                | some panic ↦ some panic
                | some (ok events) ↦ some (ok (record { events = events; offset = o }))
              ]
        ])
    buffer-Ends o panic h = (panic, refl, panics)
    buffer-Ends o (ok none) h = (_, refl, returns (refl, tt))
    buffer-Ends o (ok (some buffer)) h =
        after
          (read_events-Ends (buffer.len + 1) buffer 0 [] (Post-ok h) (omega arith) (omega arith) tt)
      where
        after :
            {result : Option (Outcome (List (Event F)))}
            → Ends (All IsEvent) result
            → Ends (IsScript o) (elim result [
              | none ↦ none
              | some panic ↦ some panic
              | some (ok events) ↦ some (ok (record { events = events; offset = o }))
            ])
        after (panic, e, k) = rw e (panic, refl, panics)
        after (ok events, e, k) = rw e (ok _, refl, returns (refl, Post-ok k))

    -- `new_script` ends at every offset, whatever the data and the memory hold. If it does not
    -- panic, the script has the offset that it was read from, none of its events is the end of a
    -- script, each has fewer than 256 arguments, and values and offsets fit in 32 bits.
    pub new_script-Ends :
        (o : ℕ) → Ends (IsScript o) (new_script fs scalar_of parent_data o wii_memory)
    unfolding new_script
    new_script-Ends o =
        buffer-Ends o (script_buffer fs parent_data wii_memory o) (script_buffer-IsBuffer o)
