-- ===== src/Script/Tests.antt =====
-- The readers of src/script.rs on a small file, and their theorems at concrete inputs. The numbers
-- of f32 are stood for by the integers that they are made from.
use brawllib_rs.Prelude.{ℕ, ◌+◌, ◌^◌, ◌≡◌, refl, List, [], ◌∷◌, some, arith}
use brawllib_rs.Outcome.{Ends, ok}
use brawllib_rs.Bytes.{get, slice_from}
use brawllib_rs.Bytes.Words.{IsBytes}
use brawllib_rs.Bytes.Reference.{bytes_of, bytes_of-IsBytes}
use brawllib_rs.Slice.{fancy_slice}
use brawllib_rs.WiiMemory.{new}
use brawllib_rs.WiiMemory.Invariant.{new-IsWii}
use brawllib_rs.Script.Argument.{Argument, Script}
use brawllib_rs.Script.Read.{
  argument, arguments_from, arguments, argument_buffer, is_filler, read_event, read_events,
  script_buffer, new_script, exceeds,
}
use brawllib_rs.Script.ReadLaws.{IsScript}
use brawllib_rs.Script.ReadEnds.{new_script-Ends}
use brawllib_rs.Script.Fragments.{scripts, fragment_scripts}
use brawllib_rs.Script.TableLaws.{IsTable, scripts-Ends}
use brawllib_rs.Script.Closure.{IsClosed, fragment_scripts-Ends}

-- At 4, a script that goes to the one at 28, with its argument at 20.
abbrev file : List ℕ
file =
    0 ∷ 0 ∷ 0 ∷ 4 ∷ 0x00 ∷ 0x07 ∷ 1 ∷ 0 ∷ 0 ∷ 0 ∷ 0 ∷ 20 ∷ 0 ∷ 0 ∷ 0 ∷ 0 ∷ 0 ∷ 0 ∷ 0 ∷ 0 ∷ 0 ∷ 0 ∷ 0
    ∷ 0 ∷ 0 ∷ 0 ∷ 0 ∷ 28 ∷ 0 ∷ 0 ∷ 0 ∷ 0 ∷ 0 ∷ 0 ∷ 0 ∷ 0 ∷ []

file-IsBytes : IsBytes (bytes_of file)
file-IsBytes = bytes_of-IsBytes file (omega arith)

abbrev as_scalar : ℕ → ℕ
as_scalar v = v

abbrev jump : Script ℕ
jump = record {
  events = record { namespace = 0; code = 7; unk1 = 0; arguments = Argument.value 28 ∷ [] } ∷ [];
  offset = 4;
}

new_script_test : new_script fancy_slice as_scalar (bytes_of file) 4 new ≡ some (ok jump)
unfolding new_script script_buffer read_events read_event argument_buffer arguments arguments_from
    argument is_filler exceeds get slice_from
new_script_test = refl

new_script-Ends_example : Ends (IsScript 4) (new_script fancy_slice as_scalar (bytes_of file) 4 new)
new_script-Ends_example =
    new_script-Ends fancy_slice (bytes_of file) new file-IsBytes new-IsWii as_scalar 4

scripts-Ends_example :
    Ends
      (IsTable fancy_slice as_scalar (bytes_of file) new (bytes_of file) 0 1)
      (scripts fancy_slice as_scalar (bytes_of file) new 1 (bytes_of file) 0)
scripts-Ends_example =
    scripts-Ends fancy_slice as_scalar (bytes_of file) new file-IsBytes new-IsWii 1 (bytes_of file)
      0

abbrev known : List (List (Script ℕ))
known = (jump ∷ []) ∷ []

fragment_scripts-Ends_example :
    Ends
      (IsClosed [] known)
      (fragment_scripts fancy_slice as_scalar (bytes_of file) new [] (2 ^ 32 + 1) known)
fragment_scripts-Ends_example =
    fragment_scripts-Ends fancy_slice as_scalar (bytes_of file) new file-IsBytes new-IsWii []
      (2 ^ 32 + 1) known ((refl, omega arith, omega arith), tt) (omega arith)
