-- ===== src/ScriptRunner/IntLaws.antt =====
-- The int variables of src/script_runner.rs are a store: a set variable is read back, the others are
-- as they were.
use brawllib_rs.Prelude.{ℕ, ◌≡◌, ◌≢◌, ◌<◌, length, arith}
use brawllib_rs.ScriptRunner.Vectors.{read-put, read-put_ne, length-put}
use brawllib_rs.VariableAst.Tables.{LongtermAccessInt, RandomAccessInt}
use brawllib_rs.ScriptRunner.Ints.{
  LongtermInts, get_longterm_int, set_longterm_int, RandomInts, get_random_int, set_random_int,
}

abbrev longterm_int_address : LongtermAccessInt → ℕ
longterm_int_address (LongtermAccessInt.address a) = a
longterm_int_address _ = 0

-- A name, or an address that lies in the vector.
abbrev pub HoldsLongtermInt : LongtermInts → LongtermAccessInt → Type 0
HoldsLongtermInt s (LongtermAccessInt.address a) = a < length s.longterm_access_int
HoldsLongtermInt s _ = Unit

pub get_longterm_int-set :
    (s : LongtermInts) (v : LongtermAccessInt) (x : ℕ)
    → HoldsLongtermInt s v
    → get_longterm_int (set_longterm_int s v x) v ≡ x
unfolding get_longterm_int set_longterm_int
get_longterm_int-set s v x h =
    ground (arith, read-put 0 s.longterm_access_int (longterm_int_address v) x)

pub get_longterm_int-set_ne :
    (s : LongtermInts) (v w : LongtermAccessInt) (x : ℕ)
    → v ≢ w
    → get_longterm_int (set_longterm_int s v x) w ≡ get_longterm_int s w
unfolding get_longterm_int set_longterm_int
get_longterm_int-set_ne s v w x h =
    ground (
      arith,
      read-put_ne 0 s.longterm_access_int (longterm_int_address v) (longterm_int_address w) x,
    )

pub length-set_longterm_int :
    (s : LongtermInts) (v : LongtermAccessInt) (x : ℕ)
    → length (set_longterm_int s v x).longterm_access_int ≡ length s.longterm_access_int
unfolding set_longterm_int
length-set_longterm_int s v x =
    ground (arith, length-put s.longterm_access_int (longterm_int_address v) x)

abbrev random_int_address : RandomAccessInt → ℕ
random_int_address (RandomAccessInt.address a) = a
random_int_address _ = 0

-- A name, or an address that lies in the vector.
abbrev pub HoldsRandomInt : RandomInts → RandomAccessInt → Type 0
HoldsRandomInt s (RandomAccessInt.address a) = a < length s.random_access_int
HoldsRandomInt s _ = Unit

pub get_random_int-set :
    (s : RandomInts) (v : RandomAccessInt) (x : ℕ)
    → HoldsRandomInt s v
    → get_random_int (set_random_int s v x) v ≡ x
unfolding get_random_int set_random_int
get_random_int-set s v x h = ground (arith, read-put 0 s.random_access_int (random_int_address v) x)

pub get_random_int-set_ne :
    (s : RandomInts) (v w : RandomAccessInt) (x : ℕ)
    → v ≢ w
    → get_random_int (set_random_int s v x) w ≡ get_random_int s w
unfolding get_random_int set_random_int
get_random_int-set_ne s v w x h =
    ground
      (arith, read-put_ne 0 s.random_access_int (random_int_address v) (random_int_address w) x)

pub length-set_random_int :
    (s : RandomInts) (v : RandomAccessInt) (x : ℕ)
    → length (set_random_int s v x).random_access_int ≡ length s.random_access_int
unfolding set_random_int
length-set_random_int s v x =
    ground (arith, length-put s.random_access_int (random_int_address v) x)
