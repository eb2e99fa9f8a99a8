-- ===== src/ScriptRunner/Stored.antt =====
-- An abstract view of the variables of src/script_runner.rs: one value for each variable, of the type
-- of the variable, and what an update of one variable is.
use brawllib_rs.Prelude.{ℕ, ◌≡◌, ◌≢◌, Bool, false, not, length, ◌==◌, if◌then◌else◌}
use brawllib_rs.Script.Argument.{VariableDataType, int, float, bool}
use brawllib_rs.VariableAst.Ast.{
  VariableAst, internal_constant_int, longterm_access_int, longterm_access_float,
  longterm_access_bool, random_access_int, random_access_float, random_access_bool,
}
use brawllib_rs.ScriptRunner.Numbers.{Floats}
use brawllib_rs.ScriptRunner.Ints.{get_longterm_int, get_random_int}
use brawllib_rs.ScriptRunner.Floats.{get_longterm_float, get_random_float}
use brawllib_rs.ScriptRunner.Bools.{get_longterm_bool, get_random_bool}
use brawllib_rs.ScriptRunner.IntLaws.{HoldsLongtermInt, HoldsRandomInt}
use brawllib_rs.ScriptRunner.FloatLaws.{HoldsLongtermFloat, HoldsRandomFloat}
use brawllib_rs.ScriptRunner.BoolLaws.{HoldsLongtermBool, HoldsRandomBool}
use brawllib_rs.ScriptRunner.Variables.{Variables, constant}

pub data Value (F : Type 0) : Type 0 where
  an_int : ℕ → Value F
  a_float : F → Value F
  a_bool : Bool → Value F
  nothing : Value F

-- The one of three values that the type of a variable asks for.
abbrev pub picked : {F : Type 0} → VariableDataType → ℕ → F → Bool → Value F
picked int x y b = an_int x
picked float x y b = a_float y
picked bool x y b = a_bool b
picked (VariableDataType.unknown _) x y b = nothing

module _ {F : Type 0} (fl : Floats F) where
  -- The value of a variable without a name, which is never set.
  abbrev default_of : VariableDataType → Value F
  default_of int = an_int 0
  default_of float = a_float fl.zero
  default_of bool = a_bool false
  default_of (VariableDataType.unknown _) = nothing

  abbrev pub lookup : Variables F → VariableAst → Value F
  lookup s (internal_constant_int v) = an_int (constant fl s v)
  lookup s (longterm_access_int v) = an_int (get_longterm_int s.longterm_ints v)
  lookup s (longterm_access_float v) = a_float (get_longterm_float fl.zero s.longterm_floats v)
  lookup s (longterm_access_bool v) = a_bool (get_longterm_bool s.longterm_bools v)
  lookup s (random_access_int v) = an_int (get_random_int s.random_ints v)
  lookup s (random_access_float v) = a_float (get_random_float fl.zero s.random_floats v)
  lookup s (random_access_bool v) = a_bool (get_random_bool s.random_bools v)
  lookup s (VariableAst.unknown _ d _) = default_of d

  -- A value as an i32 and as an f32, and the value of a type that an i32, an f32 or a bool is stored as.
  abbrev pub as_int : Value F → ℕ
  as_int (an_int x) = x
  as_int (a_float x) = fl.to_i32 x
  as_int (a_bool b) = if b then 1 else 0
  as_int nothing = 0

  abbrev pub as_float : Value F → F
  as_float (an_int x) = fl.of_i32 x
  as_float (a_float x) = x
  as_float (a_bool b) = if b then fl.one else fl.zero
  as_float nothing = fl.zero

  abbrev pub of_int : VariableDataType → ℕ → Value F
  of_int d x = picked d x (fl.of_i32 x) (not (x == 0))

  abbrev pub of_float : VariableDataType → F → Value F
  of_float d x = picked d (fl.to_i32 x) x (not (fl.eq x fl.zero))

  abbrev pub of_bool : VariableDataType → Bool → Value F
  of_bool d b = picked d (if b then 1 else 0) (if b then fl.one else fl.zero) b

-- A variable that can be set: it has a name, or an address inside its vector.
abbrev pub IsStored : {F : Type 0} → Variables F → VariableAst → Type 0
IsStored s (longterm_access_int v) = HoldsLongtermInt s.longterm_ints v
IsStored s (longterm_access_float v) = HoldsLongtermFloat s.longterm_floats v
IsStored s (longterm_access_bool v) = HoldsLongtermBool s.longterm_bools v
IsStored s (random_access_int v) = HoldsRandomInt s.random_ints v
IsStored s (random_access_float v) = HoldsRandomFloat s.random_floats v
IsStored s (random_access_bool v) = HoldsRandomBool s.random_bools v
IsStored s _ = ⊥

-- The lengths that `ScriptRunner::new` gives the vectors.
pub record IsSized {F : Type 0} (s : Variables F) : Type 0 where
  pub longterm_int : length s.longterm_ints.longterm_access_int ≡ 0x500
  pub longterm_float : length s.longterm_floats.longterm_access_float ≡ 0x500
  pub longterm_bool : length s.longterm_bools.longterm_access_bool ≡ 0x500
  pub random_int : length s.random_ints.random_access_int ≡ 0x100
  pub random_float : length s.random_floats.random_access_float ≡ 0x100
  pub random_bool : length s.random_bools.random_access_bool ≡ 0x100

-- After an update of `v` its value is `x`, if it can be set; no other variable has changed, and
-- neither have the lengths of the vectors.
pub record Updates {F : Type 0} (fl : Floats F) (s : Variables F) (v : VariableAst) (x : Value F)
    (t : Variables F) : Type 0 where
  pub stored : IsStored s v → lookup fl t v ≡ x
  pub frame : (w : VariableAst) → v ≢ w → lookup fl t w ≡ lookup fl s w
  pub sized : IsSized s → IsSized t
