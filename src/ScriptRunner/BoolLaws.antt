-- ===== src/ScriptRunner/BoolLaws.antt =====
-- The bool variables of src/script_runner.rs are a store: a set variable is read back, the others are
-- as they were.
use brawllib_rs.Prelude.{ℕ, ◌≡◌, ◌≢◌, ◌<◌, Bool, false, length, arith}
use brawllib_rs.ScriptRunner.Vectors.{read-put, read-put_ne, length-put}
use brawllib_rs.VariableAst.Tables.{LongtermAccessBool, RandomAccessBool}
use brawllib_rs.ScriptRunner.Bools.{
  LongtermBools, get_longterm_bool, set_longterm_bool, RandomBools, get_random_bool,
  set_random_bool,
}

abbrev longterm_bool_address : LongtermAccessBool → ℕ
longterm_bool_address (LongtermAccessBool.address a) = a
longterm_bool_address _ = 0

-- A name, or an address that lies in the vector.
abbrev pub HoldsLongtermBool : LongtermBools → LongtermAccessBool → Type 0
HoldsLongtermBool s (LongtermAccessBool.address a) = a < length s.longterm_access_bool
HoldsLongtermBool s _ = Unit

pub get_longterm_bool-set :
    (s : LongtermBools) (v : LongtermAccessBool) (x : Bool)
    → HoldsLongtermBool s v
    → get_longterm_bool (set_longterm_bool s v x) v ≡ x
unfolding get_longterm_bool set_longterm_bool
get_longterm_bool-set s v x h =
    ground (arith, read-put false s.longterm_access_bool (longterm_bool_address v) x)

pub get_longterm_bool-set_ne :
    (s : LongtermBools) (v w : LongtermAccessBool) (x : Bool)
    → v ≢ w
    → get_longterm_bool (set_longterm_bool s v x) w ≡ get_longterm_bool s w
unfolding get_longterm_bool set_longterm_bool
get_longterm_bool-set_ne s v w x h = ground (
  arith,
  read-put_ne false s.longterm_access_bool (longterm_bool_address v) (longterm_bool_address w) x,
)

pub length-set_longterm_bool :
    (s : LongtermBools) (v : LongtermAccessBool) (x : Bool)
    → length (set_longterm_bool s v x).longterm_access_bool ≡ length s.longterm_access_bool
unfolding set_longterm_bool
length-set_longterm_bool s v x =
    ground (arith, length-put s.longterm_access_bool (longterm_bool_address v) x)

abbrev random_bool_address : RandomAccessBool → ℕ
random_bool_address (RandomAccessBool.address a) = a
random_bool_address _ = 0

-- A name, or an address that lies in the vector.
abbrev pub HoldsRandomBool : RandomBools → RandomAccessBool → Type 0
HoldsRandomBool s (RandomAccessBool.address a) = a < length s.random_access_bool
HoldsRandomBool s _ = Unit

pub get_random_bool-set :
    (s : RandomBools) (v : RandomAccessBool) (x : Bool)
    → HoldsRandomBool s v
    → get_random_bool (set_random_bool s v x) v ≡ x
unfolding get_random_bool set_random_bool
get_random_bool-set s v x h =
    ground (arith, read-put false s.random_access_bool (random_bool_address v) x)

pub get_random_bool-set_ne :
    (s : RandomBools) (v w : RandomAccessBool) (x : Bool)
    → v ≢ w
    → get_random_bool (set_random_bool s v x) w ≡ get_random_bool s w
unfolding get_random_bool set_random_bool
get_random_bool-set_ne s v w x h = ground (
  arith,
  read-put_ne false s.random_access_bool (random_bool_address v) (random_bool_address w) x,
)

pub length-set_random_bool :
    (s : RandomBools) (v : RandomAccessBool) (x : Bool)
    → length (set_random_bool s v x).random_access_bool ≡ length s.random_access_bool
unfolding set_random_bool
length-set_random_bool s v x =
    ground (arith, length-put s.random_access_bool (random_bool_address v) x)
