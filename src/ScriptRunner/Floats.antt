-- ===== src/ScriptRunner/Floats.antt =====
-- The float variables of a `ScriptRunner` in src/script_runner.rs, with the arms of
-- `get_variable_float_inner` and `set_variable_float_inner` for them. f32 is the type F.
use brawllib_rs.Prelude.{List}
use brawllib_rs.ScriptRunner.Vectors.{read, put}
use brawllib_rs.VariableAst.Tables.{LongtermAccessFloat, RandomAccessFloat}

pub record LongtermFloats (F : Type 0) : Type 0 where
  pub special_landing_lag : F
  pub special_fall_mobility_multiplier : F
  pub shield_charge : F
  pub curry_angle1 : F
  pub curry_randomness : F
  pub longterm_access_float : List F

unfoldable pub get_longterm_float :
    {F : Type 0} → (default : F) → LongtermFloats F → LongtermAccessFloat → F
get_longterm_float default s LongtermAccessFloat.special_landing_lag = s.special_landing_lag
get_longterm_float default s LongtermAccessFloat.special_fall_mobility_multiplier =
    s.special_fall_mobility_multiplier
get_longterm_float default s LongtermAccessFloat.shield_charge = s.shield_charge
get_longterm_float default s LongtermAccessFloat.curry_angle1 = s.curry_angle1
get_longterm_float default s LongtermAccessFloat.curry_randomness = s.curry_randomness
get_longterm_float default s (LongtermAccessFloat.address a) =
    read default s.longterm_access_float a

unfoldable pub set_longterm_float :
    {F : Type 0} → LongtermFloats F → LongtermAccessFloat → F → LongtermFloats F
set_longterm_float s LongtermAccessFloat.special_landing_lag x = record s {
  special_landing_lag = x;
}
set_longterm_float s LongtermAccessFloat.special_fall_mobility_multiplier x = record s {
  special_fall_mobility_multiplier = x;
}
set_longterm_float s LongtermAccessFloat.shield_charge x = record s { shield_charge = x }
set_longterm_float s LongtermAccessFloat.curry_angle1 x = record s { curry_angle1 = x }
set_longterm_float s LongtermAccessFloat.curry_randomness x = record s { curry_randomness = x }
set_longterm_float s (LongtermAccessFloat.address a) x = record s {
  longterm_access_float = put s.longterm_access_float a x;
}

pub record RandomFloats (F : Type 0) : Type 0 where
  pub enable_turn_when_below_zero : F
  pub random_access_float : List F

unfoldable pub get_random_float :
    {F : Type 0} → (default : F) → RandomFloats F → RandomAccessFloat → F
get_random_float default s RandomAccessFloat.enable_turn_when_below_zero =
    s.enable_turn_when_below_zero
get_random_float default s (RandomAccessFloat.address a) = read default s.random_access_float a

unfoldable pub set_random_float :
    {F : Type 0} → RandomFloats F → RandomAccessFloat → F → RandomFloats F
set_random_float s RandomAccessFloat.enable_turn_when_below_zero x = record s {
  enable_turn_when_below_zero = x;
}
set_random_float s (RandomAccessFloat.address a) x = record s {
  random_access_float = put s.random_access_float a x;
}
