-- ===== src/VariableAst/Tests.antt =====
-- The theorems on src/script_ast/variable_ast.rs at a concrete variable.
use brawllib_rs.Prelude.{◌≡◌, some}
use brawllib_rs.Script.Argument.{Variable, internal_constant, int}
use brawllib_rs.VariableAst.Ast.{variable_ast}
use brawllib_rs.VariableAst.Laws.{variable_of, variable_of-variable_ast}

-- The variable at address 20001 of the internal constants.
abbrev sample : Variable
sample = record { memory_type = internal_constant; data_type = int; address = 20001 }

variable_of-variable_ast_example : variable_of (variable_ast sample) ≡ some sample
variable_of-variable_ast_example = variable_of-variable_ast sample
