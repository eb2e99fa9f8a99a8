-- ===== src/VariableAst/Laws.antt =====
-- The names of src/script_ast/variable_ast.rs keep the variable that they stand for.
use brawllib_rs.Prelude.{ℕ, ◌≡◌, refl, ap, Option, none, some}
use brawllib_rs.Script.Argument.{
  VariableMemoryType, internal_constant, longterm_access, random_access, VariableDataType, int,
  float, bool, Variable,
}
use brawllib_rs.VariableAst.TableLaws.{
  internal_constant_int_address, internal_constant_int_address-internal_constant_int,
  longterm_access_int_address, longterm_access_int_address-longterm_access_int,
  longterm_access_float_address, longterm_access_float_address-longterm_access_float,
  longterm_access_bool_address, longterm_access_bool_address-longterm_access_bool,
  random_access_int_address, random_access_int_address-random_access_int,
  random_access_float_address, random_access_float_address-random_access_float,
  random_access_bool_address, random_access_bool_address-random_access_bool,
}
use brawllib_rs.VariableAst.Ast.{
  VariableAst, internal_constant_int, longterm_access_int, longterm_access_float,
  longterm_access_bool, random_access_int, random_access_float, random_access_bool, name_of,
  variable_ast, ast_data_type,
}

-- The variable of an address in one of the tables.
abbrev at : VariableMemoryType → VariableDataType → Option ℕ → Option Variable
at m d a = elim a [
  | none ↦ none
  | some v ↦ some (record { memory_type = m; data_type = d; address = v })
]

-- The variable that a name stands for, if it stands for one.
abbrev pub variable_of : VariableAst → Option Variable
variable_of (internal_constant_int v) = at internal_constant int (internal_constant_int_address v)
variable_of (longterm_access_int v) = at longterm_access int (longterm_access_int_address v)
variable_of (longterm_access_float v) = at longterm_access float (longterm_access_float_address v)
variable_of (longterm_access_bool v) = at longterm_access bool (longterm_access_bool_address v)
variable_of (random_access_int v) = at random_access int (random_access_int_address v)
variable_of (random_access_float v) = at random_access float (random_access_float_address v)
variable_of (random_access_bool v) = at random_access bool (random_access_bool_address v)
variable_of (VariableAst.unknown m d a) = at m d (some a)

-- A variable whose type and memory have no table keeps both beside its address.
variable_of-name_of :
    (m : VariableMemoryType) (d : VariableDataType) (a : ℕ)
    → variable_of (name_of m d a) ≡ some (record { memory_type = m; data_type = d; address = a })
unfolding name_of
variable_of-name_of internal_constant int a =
    ap (at internal_constant int) (internal_constant_int_address-internal_constant_int a)
variable_of-name_of internal_constant float a = refl
variable_of-name_of internal_constant bool a = refl
variable_of-name_of internal_constant (VariableDataType.unknown j) a = refl
variable_of-name_of longterm_access int a =
    ap (at longterm_access int) (longterm_access_int_address-longterm_access_int a)
variable_of-name_of longterm_access float a =
    ap (at longterm_access float) (longterm_access_float_address-longterm_access_float a)
variable_of-name_of longterm_access bool a =
    ap (at longterm_access bool) (longterm_access_bool_address-longterm_access_bool a)
variable_of-name_of longterm_access (VariableDataType.unknown j) a = refl
variable_of-name_of random_access int a =
    ap (at random_access int) (random_access_int_address-random_access_int a)
variable_of-name_of random_access float a =
    ap (at random_access float) (random_access_float_address-random_access_float a)
variable_of-name_of random_access bool a =
    ap (at random_access bool) (random_access_bool_address-random_access_bool a)
variable_of-name_of random_access (VariableDataType.unknown j) a = refl
variable_of-name_of (VariableMemoryType.unknown k) int a = refl
variable_of-name_of (VariableMemoryType.unknown k) float a = refl
variable_of-name_of (VariableMemoryType.unknown k) bool a = refl
variable_of-name_of (VariableMemoryType.unknown k) (VariableDataType.unknown j) a = refl

-- The name of a variable stands for that variable and no other: its memory, its type and its
-- address are read back.
pub variable_of-variable_ast : (v : Variable) → variable_of (variable_ast v) ≡ some v
unfolding variable_ast
variable_of-variable_ast v = variable_of-name_of v.memory_type v.data_type v.address

ast_data_type-name_of :
    (m : VariableMemoryType) (d : VariableDataType) (a : ℕ) → ast_data_type (name_of m d a) ≡ d
unfolding name_of ast_data_type
ast_data_type-name_of internal_constant int a = refl
ast_data_type-name_of internal_constant float a = refl
ast_data_type-name_of internal_constant bool a = refl
ast_data_type-name_of internal_constant (VariableDataType.unknown j) a = refl
ast_data_type-name_of longterm_access int a = refl
ast_data_type-name_of longterm_access float a = refl
ast_data_type-name_of longterm_access bool a = refl
ast_data_type-name_of longterm_access (VariableDataType.unknown j) a = refl
ast_data_type-name_of random_access int a = refl
ast_data_type-name_of random_access float a = refl
ast_data_type-name_of random_access bool a = refl
ast_data_type-name_of random_access (VariableDataType.unknown j) a = refl
ast_data_type-name_of (VariableMemoryType.unknown k) int a = refl
ast_data_type-name_of (VariableMemoryType.unknown k) float a = refl
ast_data_type-name_of (VariableMemoryType.unknown k) bool a = refl
ast_data_type-name_of (VariableMemoryType.unknown k) (VariableDataType.unknown j) a = refl

-- The type of a name is the type of its variable.
pub ast_data_type-variable_ast : (v : Variable) → ast_data_type (variable_ast v) ≡ v.data_type
unfolding variable_ast
ast_data_type-variable_ast v = ast_data_type-name_of v.memory_type v.data_type v.address
