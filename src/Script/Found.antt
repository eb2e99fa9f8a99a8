-- ===== src/Script/Found.antt =====
-- The offsets that the events of a script lead to, in src/script.rs, fit in 32 bits.
use brawllib_rs.Prelude.{
  ℕ, zero, suc, ◌^◌, ◌<◌, Bool, true, false, ◌&&◌, List, [], ◌∷◌, All, Option, none, some,
  get_elem?, ◌==◌, if◌then◌else◌,
}
use brawllib_rs.Script.Argument.{Argument, value, offset, Event}
use brawllib_rs.Script.ReadLaws.{IsArgument, IsEvent}
use brawllib_rs.Script.Fragments.{contains, offset_of, offset_or_value_of, found_offset}

-- An offset that is found fits in 32 bits.
pub data IsFound : Option ℕ → Type 0 where
  nothing : IsFound none
  found : {o : ℕ} → o < 2 ^ 32 → IsFound (some o)

IsFound-if : (b : Bool) {x y : Option ℕ} → IsFound x → IsFound y → IsFound (if b then x else y)
IsFound-if true h k = h
IsFound-if false h k = k

module _ {F : Type 0} where
  abbrev IsOption : Option (Argument F) → Type 0
  IsOption none = Unit
  IsOption (some a) = IsArgument a

  get_elem?-IsOption :
      (args : List (Argument F)) (i : ℕ) → All IsArgument args → IsOption (get_elem? args i)
  get_elem?-IsOption [] i h = tt
  get_elem?-IsOption (a ∷ args) zero h = h.0
  get_elem?-IsOption (a ∷ args) (suc i) h = get_elem?-IsOption args i h.1

  module _ (ignore : List ℕ) where
    offset_of-IsFound : (a : Option (Argument F)) → IsOption a → IsFound (offset_of ignore a)
    unfolding offset_of
    offset_of-IsFound none h = nothing
    offset_of-IsFound (some (offset o)) h = IsFound-if (contains ignore o.origin) nothing (found h)
    offset_of-IsFound (some (value v)) h = nothing
    offset_of-IsFound (some (Argument.scalar x)) h = nothing
    offset_of-IsFound (some (Argument.bool b)) h = nothing
    offset_of-IsFound (some (Argument.file v)) h = nothing
    offset_of-IsFound (some (Argument.variable v)) h = nothing
    offset_of-IsFound (some (Argument.requirement b r)) h = nothing
    offset_of-IsFound (some (Argument.unknown t v)) h = nothing

    offset_or_value_of-IsFound :
        (a : Option (Argument F)) → IsOption a → IsFound (offset_or_value_of ignore a)
    unfolding offset_or_value_of offset_of
    offset_or_value_of-IsFound (some (value v)) h = found h
    offset_or_value_of-IsFound none h = offset_of-IsFound none h
    offset_or_value_of-IsFound (some (offset o)) h = offset_of-IsFound (some (offset o)) h
    offset_or_value_of-IsFound (some (Argument.scalar x)) h = nothing
    offset_or_value_of-IsFound (some (Argument.bool b)) h = nothing
    offset_or_value_of-IsFound (some (Argument.file v)) h = nothing
    offset_or_value_of-IsFound (some (Argument.variable v)) h = nothing
    offset_or_value_of-IsFound (some (Argument.requirement b r)) h = nothing
    offset_or_value_of-IsFound (some (Argument.unknown t v)) h = nothing

    pub found_offset-IsFound : (e : Event F) → IsEvent e → IsFound (found_offset ignore e)
    unfolding found_offset
    found_offset-IsFound e h =
        IsFound-if ((e.namespace == 0x00) && (if e.code == 0x07 then true else e.code == 0x09))
          (offset_or_value_of-IsFound (get_elem? e.arguments 0)
            (get_elem?-IsOption e.arguments 0 h.2))
          (IsFound-if ((e.namespace == 0x0D) && (if e.code == 0x00 then true else e.code == 0x05))
            (offset_of-IsFound (get_elem? e.arguments 1) (get_elem?-IsOption e.arguments 1 h.2))
            nothing)
