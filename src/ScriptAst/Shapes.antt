-- ===== src/ScriptAst/Shapes.antt =====
-- The shapes of the arms of `process_block` in src/script_ast/mod.rs, as `(args.get(0), args.get(1),
-- args.get(2))` tells them apart: an arm gives an event, or the match goes on to the next arm.
use brawllib_rs.Prelude.{ℕ, ◌/◌, ◌%◌, ◌^◌, Bool, Option, none, some, List, [], ◌∷◌, ◌==◌}
use brawllib_rs.VariableAst.Ast.{VariableAst, variable_ast}
use brawllib_rs.Script.Argument.{Argument, Offset, value, scalar, offset, bool, variable}
use brawllib_rs.ScriptAst.HitBoxes.{FloatValue}

-- `(v & mask) >> k` for a mask of `w` bits from bit `k` on, and `v & mask != 0` for bit `k`.
unfoldable pub bits : (v k w : ℕ) → ℕ
bits v k w = v / 2 ^ k % 2 ^ w

unfoldable pub test_bit : (v k : ℕ) → Bool
test_bit v k = v / 2 ^ k % 2 == 1

abbrev pub Arguments : Type 0 → Type 0
Arguments F = List (Argument F)

module _ {F : Type 0} where
  module _ {E : Type 0} where
    -- `(None, None, None)`
    unfoldable pub no_arguments : E → Arguments F → Option E
    no_arguments e [] = some e
    no_arguments e _ = none

    -- `(Some(&Value(v0)), None, None)`, and so for the other types of arguments.
    unfoldable pub one_value : (ℕ → E) → Arguments F → Option E
    one_value e (value v0 ∷ []) = some (e v0)
    one_value e _ = none

    unfoldable pub one_scalar : (F → E) → Arguments F → Option E
    one_scalar e (scalar v0 ∷ []) = some (e v0)
    one_scalar e _ = none

    unfoldable pub one_bool : (Bool → E) → Arguments F → Option E
    one_bool e (bool v0 ∷ []) = some (e v0)
    one_bool e _ = none

    unfoldable pub one_variable : (VariableAst → E) → Arguments F → Option E
    one_variable e (variable v0 ∷ []) = some (e (variable_ast v0))
    one_variable e _ = none

    -- An offset, or a value that is taken as the offset with -1 for its origin.
    unfoldable pub one_offset : (Offset → E) → Arguments F → Option E
    one_offset e (offset v0 ∷ []) = some (e v0)
    one_offset e (value v0 ∷ []) = some (e (record { offset = v0; origin = 0xFFFFFFFF }))
    one_offset e _ = none

    -- `(Some(&Value(v0)), Some(&Value(v1)), None)`, and so for the other types of arguments.
    unfoldable pub two_values : (ℕ → ℕ → E) → Arguments F → Option E
    two_values e (value v0 ∷ value v1 ∷ []) = some (e v0 v1)
    two_values e _ = none

    unfoldable pub value_offset : (ℕ → Offset → E) → Arguments F → Option E
    value_offset e (value v0 ∷ offset v1 ∷ []) = some (e v0 v1)
    value_offset e _ = none

    unfoldable pub value_scalar : (ℕ → F → E) → Arguments F → Option E
    value_scalar e (value v0 ∷ scalar v1 ∷ []) = some (e v0 v1)
    value_scalar e _ = none

    unfoldable pub value_bool : (ℕ → Bool → E) → Arguments F → Option E
    value_bool e (value v0 ∷ bool v1 ∷ []) = some (e v0 v1)
    value_bool e _ = none

    unfoldable pub value_variable : (ℕ → VariableAst → E) → Arguments F → Option E
    value_variable e (value v0 ∷ variable v1 ∷ []) = some (e v0 (variable_ast v1))
    value_variable e _ = none

    -- A scalar or a variable, and the variable that is changed by it.
    unfoldable pub float_variable : (FloatValue F → VariableAst → E) → Arguments F → Option E
    float_variable e (scalar v0 ∷ variable v1 ∷ []) =
        some (e (FloatValue.constant v0) (variable_ast v1))
    float_variable e (variable v0 ∷ variable v1 ∷ []) =
        some (e (FloatValue.variable (variable_ast v0)) (variable_ast v1))
    float_variable e _ = none
