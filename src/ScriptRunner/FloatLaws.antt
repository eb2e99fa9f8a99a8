-- ===== src/ScriptRunner/FloatLaws.antt =====
-- The float variables of src/script_runner.rs are a store: a set variable is read back, the others
-- are as they were.
use brawllib_rs.Prelude.{ℕ, ◌≡◌, ◌≢◌, ◌<◌, length, arith}
use brawllib_rs.ScriptRunner.Vectors.{read-put, read-put_ne, length-put}
use brawllib_rs.VariableAst.Tables.{LongtermAccessFloat, RandomAccessFloat}
use brawllib_rs.ScriptRunner.Floats.{
  LongtermFloats, get_longterm_float, set_longterm_float, RandomFloats, get_random_float,
  set_random_float,
}

abbrev longterm_float_address : LongtermAccessFloat → ℕ
longterm_float_address (LongtermAccessFloat.address a) = a
longterm_float_address _ = 0

-- A name, or an address that lies in the vector.
abbrev pub HoldsLongtermFloat : {F : Type 0} → LongtermFloats F → LongtermAccessFloat → Type 0
HoldsLongtermFloat s (LongtermAccessFloat.address a) = a < length s.longterm_access_float
HoldsLongtermFloat s _ = Unit

pub get_longterm_float-set :
    {F : Type 0} (default : F) (s : LongtermFloats F) (v : LongtermAccessFloat) (x : F)
    → HoldsLongtermFloat s v
    → get_longterm_float default (set_longterm_float s v x) v ≡ x
unfolding get_longterm_float set_longterm_float
get_longterm_float-set default s v x h =
    ground (arith, read-put default s.longterm_access_float (longterm_float_address v) x)

pub get_longterm_float-set_ne :
    {F : Type 0} (default : F) (s : LongtermFloats F) (v w : LongtermAccessFloat) (x : F)
    → v ≢ w
    → get_longterm_float default (set_longterm_float s v x) w ≡ get_longterm_float default s w
unfolding get_longterm_float set_longterm_float
get_longterm_float-set_ne default s v w x h = ground (
  arith,
  read-put_ne default s.longterm_access_float (longterm_float_address v) (longterm_float_address w)
      x,
)

pub length-set_longterm_float :
    {F : Type 0} (s : LongtermFloats F) (v : LongtermAccessFloat) (x : F)
    → length (set_longterm_float s v x).longterm_access_float ≡ length s.longterm_access_float
unfolding set_longterm_float
length-set_longterm_float s v x =
    ground (arith, length-put s.longterm_access_float (longterm_float_address v) x)

abbrev random_float_address : RandomAccessFloat → ℕ
random_float_address (RandomAccessFloat.address a) = a
random_float_address _ = 0

-- A name, or an address that lies in the vector.
abbrev pub HoldsRandomFloat : {F : Type 0} → RandomFloats F → RandomAccessFloat → Type 0
HoldsRandomFloat s (RandomAccessFloat.address a) = a < length s.random_access_float
HoldsRandomFloat s _ = Unit

pub get_random_float-set :
    {F : Type 0} (default : F) (s : RandomFloats F) (v : RandomAccessFloat) (x : F)
    → HoldsRandomFloat s v
    → get_random_float default (set_random_float s v x) v ≡ x
unfolding get_random_float set_random_float
get_random_float-set default s v x h =
    ground (arith, read-put default s.random_access_float (random_float_address v) x)

pub get_random_float-set_ne :
    {F : Type 0} (default : F) (s : RandomFloats F) (v w : RandomAccessFloat) (x : F)
    → v ≢ w
    → get_random_float default (set_random_float s v x) w ≡ get_random_float default s w
unfolding get_random_float set_random_float
get_random_float-set_ne default s v w x h = ground (
  arith,
  read-put_ne default s.random_access_float (random_float_address v) (random_float_address w) x,
)

pub length-set_random_float :
    {F : Type 0} (s : RandomFloats F) (v : RandomAccessFloat) (x : F)
    → length (set_random_float s v x).random_access_float ≡ length s.random_access_float
unfolding set_random_float
length-set_random_float s v x =
    ground (arith, length-put s.random_access_float (random_float_address v) x)
