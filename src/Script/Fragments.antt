-- ===== src/Script/Fragments.antt =====
-- `scripts` and `fragment_scripts` of src/script.rs: the scripts of a table of offsets, and the
-- scripts that their subroutines and jumps lead to.
use brawllib_rs.Prelude.{
  ℕ, zero, suc, ◌+◌, ◌*◌, Bool, true, false, not, ◌&&◌, List, [], ◌∷◌, ◌++◌, Option, none, some,
  get_elem?, ◌==◌, if◌then◌else◌,
}
use brawllib_rs.Outcome.{Outcome, ok, panic}
use brawllib_rs.Bytes.{Bytes}
use brawllib_rs.Slice.{FancySlice}
use brawllib_rs.WiiMemory.{WiiMemory}
use brawllib_rs.Script.Argument.{Argument, value, offset, Event, Script}
use brawllib_rs.Script.Read.{new_script}

-- `ignore_origins.contains(origin)`
unfoldable pub contains : List ℕ → ℕ → Bool
contains [] v = false
contains (x ∷ xs) v = let rest = contains xs v in if x == v then true else rest

module _ {F : Type 0} (ignore_origins : List ℕ) where
  -- `if let Some(Argument::Offset (..)) = .. { if !ignore_origins.contains(origin) { .. } }`
  unfoldable pub offset_of : Option (Argument F) → Option ℕ
  offset_of (some (offset o)) = if contains ignore_origins o.origin then none else some o.offset
  offset_of _ = none

  unfoldable pub offset_or_value_of : Option (Argument F) → Option ℕ
  unfolding offset_of
  offset_or_value_of (some (value v)) = some v
  offset_or_value_of a = offset_of a

  -- The script that an event leads to: of a subroutine or goto by its first argument, of a call
  -- every frame or an independent subroutine by its second.
  unfoldable pub found_offset : Event F → Option ℕ
  unfolding offset_of offset_or_value_of
  found_offset event =
      if (event.namespace == 0x00) && (if event.code == 0x07 then true else event.code == 0x09)
      then offset_or_value_of (get_elem? event.arguments 0)
      else if (event.namespace == 0x0D) && (if event.code == 0x00 then true else event.code == 0x05)
      then offset_of (get_elem? event.arguments 1)
      else none

-- `scripts.iter().any(|x| x.offset == offset)`
unfoldable pub any_offset : {F : Type 0} → List (Script F) → ℕ → Bool
any_offset [] o = false
any_offset (s ∷ ss) o = let rest = any_offset ss o in if s.offset == o then true else rest

-- `for check_scripts in known_scripts { for check_script in check_scripts { .. } }`
unfoldable pub is_action : {F : Type 0} → List (List (Script F)) → ℕ → Bool
unfolding any_offset
is_action [] o = false
is_action (ss ∷ known) o = let rest = is_action known o in if any_offset ss o then true else rest

-- The events of scripts, in the order of the three nested loops.
abbrev pub script_events : {F : Type 0} → List (Script F) → List (Event F)
script_events [] = []
script_events (s ∷ ss) = s.events ++ script_events ss

abbrev pub all_events : {F : Type 0} → List (List (Script F)) → List (Event F)
all_events [] = []
all_events (ss ∷ known) = script_events ss ++ all_events known

module _ (fs : FancySlice) {F : Type 0} (scalar_of : ℕ → F) (parent_data : Bytes)
    (wii_memory : WiiMemory) where
  -- `for i in 0..num`, from `i` on with `n` rounds left
  unfoldable pub scripts : ℕ → (offset_data : Bytes) (i : ℕ) → Option (Outcome (List (Script F)))
  scripts zero offset_data i = some (ok [])
  scripts (suc n) offset_data i = elim (fs.u32_be offset_data (i * 4)) [
    | panic ↦ some panic
    | ok o ↦ elim (new_script fs scalar_of parent_data o wii_memory) [
      | none ↦ none
      | some panic ↦ some panic
      | some (ok script) ↦ elim (scripts n offset_data (i + 1)) [
        | none ↦ none
        | some panic ↦ some panic
        | some (ok rest) ↦ some (ok (script ∷ rest))
      ]
    ]
  ]

  module _ (ignore_origins : List ℕ) where
    -- The loops over the events, with the fragments so far.
    unfoldable pub collect :
        List (List (Script F))
        → List (Event F)
        → (fragments : List (Script F)) → Option (Outcome (List (Script F)))
    collect known [] fragments = some (ok fragments)
    collect known (event ∷ events) fragments = elim (found_offset ignore_origins event) [
      | none ↦ collect known events fragments
      | some o ↦ elim (not (is_action known o) && not (any_offset fragments o)) [
        | false ↦ collect known events fragments
        | true ↦ elim (new_script fs scalar_of parent_data o wii_memory) [
          | none ↦ none
          | some panic ↦ some panic
          | some (ok script) ↦ collect known events (fragments ++ script ∷ [])
        ]
      ]
    ]

    -- With fuel for the recursive call; `none` means that the fuel ran out.
    unfoldable pub fragment_scripts :
        ℕ → List (List (Script F)) → Option (Outcome (List (Script F)))
    fragment_scripts zero known = none
    fragment_scripts (suc fuel) known = elim (collect known (all_events known) []) [
      | none ↦ none
      | some panic ↦ some panic
      | some (ok []) ↦ some (ok [])
      | some (ok (f ∷ fragments)) ↦ elim (fragment_scripts fuel (known ++ (f ∷ fragments) ∷ [])) [
        | none ↦ none
        | some panic ↦ some panic
        | some (ok inner) ↦ some (ok ((f ∷ fragments) ++ inner))
      ]
    ]
