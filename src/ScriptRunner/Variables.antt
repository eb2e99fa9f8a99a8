-- ===== src/ScriptRunner/Variables.antt =====
-- The variables of a `ScriptRunner` in src/script_runner.rs, and how they are read and set. The fields
-- are those of the struct, a record for each table of names.
use brawllib_rs.Prelude.{ℕ, Bool, false, not, ◌==◌, if◌then◌else◌}
use brawllib_rs.Outcome.{Outcome, ok, panic, ◌>>=◌}
use brawllib_rs.Script.Argument.{VariableDataType, int, float, bool}
use brawllib_rs.VariableAst.Constants.{InternalConstantInt}
use brawllib_rs.VariableAst.Ast.{
  VariableAst, internal_constant_int, longterm_access_int, longterm_access_float,
  longterm_access_bool, random_access_int, random_access_float, random_access_bool, ast_data_type,
}
use brawllib_rs.ScriptAst.HitBoxes.{FloatValue}
use brawllib_rs.ScriptRunner.Numbers.{Floats}
use brawllib_rs.ScriptRunner.Ints.{
  LongtermInts, RandomInts, get_longterm_int, set_longterm_int, get_random_int, set_random_int,
}
use brawllib_rs.ScriptRunner.Floats.{
  LongtermFloats, RandomFloats, get_longterm_float, set_longterm_float, get_random_float,
  set_random_float,
}
use brawllib_rs.ScriptRunner.Bools.{
  LongtermBools, RandomBools, get_longterm_bool, set_longterm_bool, get_random_bool,
  set_random_bool,
}

-- The fields of the variables, and the two that the constants are computed from.
pub record Variables (F : Type 0) : Type 0 where
  pub frame_index : F
  pub frame_speed_modifier : F
  pub longterm_ints : LongtermInts
  pub longterm_floats : LongtermFloats F
  pub longterm_bools : LongtermBools
  pub random_ints : RandomInts
  pub random_floats : RandomFloats F
  pub random_bools : RandomBools

module _ {F : Type 0} (fl : Floats F) where
  -- The internal constants. All but these are 0.
  unfoldable pub constant : Variables F → InternalConstantInt → ℕ
  constant s InternalConstantInt.current_frame = fl.to_i32 s.frame_index
  constant s InternalConstantInt.character_direction = 1
  constant s InternalConstantInt.character_direction_opposite = 0xFFFFFFFF
  constant s InternalConstantInt.current_frame_speed = fl.to_i32 s.frame_speed_modifier
  constant s InternalConstantInt.current_subaction = 0
  constant s InternalConstantInt.current_action = 0
  constant s InternalConstantInt.crawl_control_stick_x_offset_max = 20
  constant s InternalConstantInt.crawl_control_stick_x_offset_min = 0xFFFFFFEC
  constant s _ = 0

  unfoldable pub get_variable_int_inner : Variables F → VariableAst → Outcome ℕ
  get_variable_int_inner s (internal_constant_int v) = ok (constant s v)
  get_variable_int_inner s (longterm_access_int v) = ok (get_longterm_int s.longterm_ints v)
  get_variable_int_inner s (random_access_int v) = ok (get_random_int s.random_ints v)
  get_variable_int_inner s (VariableAst.unknown _ _ _) = ok 0
  get_variable_int_inner s _ = panic

  unfoldable pub get_variable_float_inner : Variables F → VariableAst → Outcome F
  get_variable_float_inner s (longterm_access_float v) =
      ok (get_longterm_float fl.zero s.longterm_floats v)
  get_variable_float_inner s (random_access_float v) =
      ok (get_random_float fl.zero s.random_floats v)
  get_variable_float_inner s (VariableAst.unknown _ _ _) = ok fl.zero
  get_variable_float_inner s _ = panic

  unfoldable pub get_variable_bool_inner : Variables F → VariableAst → Outcome Bool
  get_variable_bool_inner s (longterm_access_bool v) = ok (get_longterm_bool s.longterm_bools v)
  get_variable_bool_inner s (random_access_bool v) = ok (get_random_bool s.random_bools v)
  get_variable_bool_inner s (VariableAst.unknown _ _ _) = ok false
  get_variable_bool_inner s _ = panic

  unfoldable pub set_variable_int_inner : Variables F → VariableAst → ℕ → Outcome (Variables F)
  set_variable_int_inner s (internal_constant_int v) x = ok s
  set_variable_int_inner s (longterm_access_int v) x =
      ok (record s { longterm_ints = set_longterm_int s.longterm_ints v x })
  set_variable_int_inner s (random_access_int v) x =
      ok (record s { random_ints = set_random_int s.random_ints v x })
  set_variable_int_inner s (VariableAst.unknown _ _ _) x = ok s
  set_variable_int_inner s _ x = panic

  unfoldable pub set_variable_float_inner : Variables F → VariableAst → F → Outcome (Variables F)
  set_variable_float_inner s (longterm_access_float v) x =
      ok (record s { longterm_floats = set_longterm_float s.longterm_floats v x })
  set_variable_float_inner s (random_access_float v) x =
      ok (record s { random_floats = set_random_float s.random_floats v x })
  set_variable_float_inner s (VariableAst.unknown _ _ _) x = ok s
  set_variable_float_inner s _ x = panic

  unfoldable pub set_variable_bool_inner : Variables F → VariableAst → Bool → Outcome (Variables F)
  set_variable_bool_inner s (longterm_access_bool v) x =
      ok (record s { longterm_bools = set_longterm_bool s.longterm_bools v x })
  set_variable_bool_inner s (random_access_bool v) x =
      ok (record s { random_bools = set_random_bool s.random_bools v x })
  set_variable_bool_inner s (VariableAst.unknown _ _ _) x = ok s
  set_variable_bool_inner s _ x = panic

  unfoldable pub get_variable_int : Variables F → VariableAst → Outcome ℕ
  get_variable_int s v = elim (ast_data_type v) [
    | int ↦ get_variable_int_inner s v
    | float ↦ get_variable_float_inner s v >>= λ x. ok (fl.to_i32 x)
    | bool ↦ get_variable_bool_inner s v >>= λ b. ok (if b then 1 else 0)
    | VariableDataType.unknown _ ↦ ok 0
  ]

  unfoldable pub get_variable_float : Variables F → VariableAst → Outcome F
  get_variable_float s v = elim (ast_data_type v) [
    | int ↦ get_variable_int_inner s v >>= λ x. ok (fl.of_i32 x)
    | float ↦ get_variable_float_inner s v
    | bool ↦ get_variable_bool_inner s v >>= λ b. ok (if b then fl.one else fl.zero)
    | VariableDataType.unknown _ ↦ ok fl.zero
  ]

  unfoldable pub get_float_value : Variables F → FloatValue F → Outcome F
  get_float_value s (FloatValue.constant x) = ok x
  get_float_value s (FloatValue.variable v) = get_variable_float s v

  unfoldable pub set_variable_int : Variables F → VariableAst → ℕ → Outcome (Variables F)
  set_variable_int s v x = elim (ast_data_type v) [
    | int ↦ set_variable_int_inner s v x
    | float ↦ set_variable_float_inner s v (fl.of_i32 x)
    | bool ↦ set_variable_bool_inner s v (not (x == 0))
    | VariableDataType.unknown _ ↦ ok s
  ]

  unfoldable pub set_variable_float : Variables F → VariableAst → F → Outcome (Variables F)
  set_variable_float s v x = elim (ast_data_type v) [
    | int ↦ set_variable_int_inner s v (fl.to_i32 x)
    | float ↦ set_variable_float_inner s v x
    | bool ↦ set_variable_bool_inner s v (not (fl.eq x fl.zero))
    | VariableDataType.unknown _ ↦ ok s
  ]

  -- `BoolVariableSetTrue` and `BoolVariableSetFalse`
  unfoldable pub set_variable_bool : Variables F → VariableAst → Bool → Outcome (Variables F)
  set_variable_bool s v b = elim (ast_data_type v) [
    | int ↦ set_variable_int_inner s v (if b then 1 else 0)
    | float ↦ set_variable_float_inner s v (if b then fl.one else fl.zero)
    | bool ↦ set_variable_bool_inner s v b
    | VariableDataType.unknown _ ↦ ok s
  ]
