-- ===== src/VariableAst.antt =====
-- src/script_ast/variable_ast.rs: the variables of a script by their names. `Constants` and `Tables`
-- have the named variables, `Ast` puts them together, `TableLaws` and `Laws` are about them.
pub mod Constants
pub mod Tables
pub mod TableLaws
pub mod Ast
pub mod Laws
pub mod Tests
