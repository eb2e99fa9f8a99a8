-- ===== src/VariableAst/Ast.antt =====
-- `VariableAst` of src/script_ast/variable_ast.rs.
use brawllib_rs.Prelude.{ℕ}
use brawllib_rs.Script.Argument.{
  VariableMemoryType, internal_constant, longterm_access, random_access, VariableDataType, int,
  float, bool, Variable,
}
use brawllib_rs.VariableAst.Constants
use brawllib_rs.VariableAst.Constants.{InternalConstantInt}
use brawllib_rs.VariableAst.Tables
use brawllib_rs.VariableAst.Tables.{
  LongtermAccessInt, LongtermAccessFloat, LongtermAccessBool, RandomAccessInt, RandomAccessFloat,
  RandomAccessBool,
}

pub data VariableAst : Type 0 where
  internal_constant_int : InternalConstantInt → VariableAst
  longterm_access_int : LongtermAccessInt → VariableAst
  longterm_access_float : LongtermAccessFloat → VariableAst
  longterm_access_bool : LongtermAccessBool → VariableAst
  random_access_int : RandomAccessInt → VariableAst
  random_access_float : RandomAccessFloat → VariableAst
  random_access_bool : RandomAccessBool → VariableAst
  unknown :
      (memory_type : VariableMemoryType) (data_type : VariableDataType) (address : ℕ) → VariableAst

-- `match (&var.memory_type, &var.data_type) { .. }`
unfoldable pub name_of : VariableMemoryType → VariableDataType → ℕ → VariableAst
name_of internal_constant int a = internal_constant_int (Constants.internal_constant_int a)
name_of longterm_access int a = longterm_access_int (Tables.longterm_access_int a)
name_of longterm_access float a = longterm_access_float (Tables.longterm_access_float a)
name_of longterm_access bool a = longterm_access_bool (Tables.longterm_access_bool a)
name_of random_access int a = random_access_int (Tables.random_access_int a)
name_of random_access float a = random_access_float (Tables.random_access_float a)
name_of random_access bool a = random_access_bool (Tables.random_access_bool a)
name_of m d a = VariableAst.unknown m d a

-- `VariableAst::new`
unfoldable pub variable_ast : Variable → VariableAst
unfolding name_of
variable_ast var = name_of var.memory_type var.data_type var.address

-- `VariableAst::data_type`
unfoldable pub ast_data_type : VariableAst → VariableDataType
ast_data_type (internal_constant_int v) = int
ast_data_type (longterm_access_int v) = int
ast_data_type (longterm_access_float v) = float
ast_data_type (longterm_access_bool v) = bool
ast_data_type (random_access_int v) = int
ast_data_type (random_access_float v) = float
ast_data_type (random_access_bool v) = bool
ast_data_type (VariableAst.unknown m d a) = d
