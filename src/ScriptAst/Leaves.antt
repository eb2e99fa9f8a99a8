-- ===== src/ScriptAst/Leaves.antt =====
-- The number of events in the tree of src/script_ast/mod.rs, and that an event which neither begins nor
-- ends a block is made to one event.
use brawllib_rs.Prelude.{
  ℕ, suc, ◌+◌, ◌≡◌, Bool, true, false, Option, none, some, [], ◌∷◌, if◌then◌else◌,
}
use brawllib_rs.VariableAst.Ast.{VariableAst}
use brawllib_rs.Script.Argument.{Argument, Offset}
use brawllib_rs.ScriptAst.Shapes.{
  Arguments, no_arguments, one_value, one_scalar, one_bool, one_variable, one_offset, two_values,
  value_offset, value_scalar, value_bool, value_variable, float_variable,
}
use brawllib_rs.ScriptAst.HitBoxes.{FloatValue}
use brawllib_rs.ScriptAst.Tree.{EventAst, Block, ElseBranch, no_else, else_block}

unfoldable mutual
  pub count : {F : Type 0} → Block F → ℕ
  count Block.empty = 0
  count (Block.cons e block) = count_event e + count block

  pub count_event : {F : Type 0} → EventAst F → ℕ
  count_event (EventAst.for_loop iterations block) = suc (count block)
  count_event (EventAst.if_statement test then_branch else_branch) =
      suc (count then_branch + count_else else_branch)
  count_event e = 1

  pub count_else : {F : Type 0} → ElseBranch F → ℕ
  count_else no_else = 0
  count_else (else_block block) = count block

-- An arm that gives one event, if any.
abbrev pub IsLeaf : {F : Type 0} → Option (EventAst F) → Type 0
IsLeaf none = Unit
IsLeaf (some e) = count_event e ≡ 1

module _ {F : Type 0} where
  pub IsLeaf-if :
      (b : Bool) (x y : Option (EventAst F)) → IsLeaf x → IsLeaf y → IsLeaf (if b then x else y)
  IsLeaf-if true x y h k = h
  IsLeaf-if false x y h k = k

  pub no_arguments-IsLeaf :
      (e : EventAst F) (args : Arguments F) → count_event e ≡ 1 → IsLeaf (no_arguments e args)
  unfolding no_arguments
  no_arguments-IsLeaf e ([]) h = h
  no_arguments-IsLeaf e _ h = tt

  pub one_value-IsLeaf :
      (e : ℕ → EventAst F) (args : Arguments F)
      → ((v : ℕ) → count_event (e v) ≡ 1)
      → IsLeaf (one_value e args)
  unfolding one_value
  one_value-IsLeaf e (Argument.value v ∷ []) h = h v
  one_value-IsLeaf e _ h = tt

  pub one_scalar-IsLeaf :
      (e : F → EventAst F) (args : Arguments F)
      → ((v : F) → count_event (e v) ≡ 1)
      → IsLeaf (one_scalar e args)
  unfolding one_scalar
  one_scalar-IsLeaf e (Argument.scalar v ∷ []) h = h v
  one_scalar-IsLeaf e _ h = tt

  pub one_bool-IsLeaf :
      (e : Bool → EventAst F) (args : Arguments F)
      → ((v : Bool) → count_event (e v) ≡ 1)
      → IsLeaf (one_bool e args)
  unfolding one_bool
  one_bool-IsLeaf e (Argument.bool v ∷ []) h = h v
  one_bool-IsLeaf e _ h = tt

  pub one_variable-IsLeaf :
      (e : VariableAst → EventAst F) (args : Arguments F)
      → ((v : VariableAst) → count_event (e v) ≡ 1)
      → IsLeaf (one_variable e args)
  unfolding one_variable
  one_variable-IsLeaf e (Argument.variable v ∷ []) h = h _
  one_variable-IsLeaf e _ h = tt

  pub one_offset-IsLeaf :
      (e : Offset → EventAst F) (args : Arguments F)
      → ((v : Offset) → count_event (e v) ≡ 1)
      → IsLeaf (one_offset e args)
  unfolding one_offset
  one_offset-IsLeaf e (Argument.offset v ∷ []) h = h v
  one_offset-IsLeaf e (Argument.value v ∷ []) h = h _
  one_offset-IsLeaf e _ h = tt

  pub two_values-IsLeaf :
      (e : ℕ → ℕ → EventAst F) (args : Arguments F)
      → ((v : ℕ) (w : ℕ) → count_event (e v w) ≡ 1)
      → IsLeaf (two_values e args)
  unfolding two_values
  two_values-IsLeaf e (Argument.value v ∷ Argument.value w ∷ []) h = h v w
  two_values-IsLeaf e _ h = tt

  pub value_offset-IsLeaf :
      (e : ℕ → Offset → EventAst F) (args : Arguments F)
      → ((v : ℕ) (w : Offset) → count_event (e v w) ≡ 1)
      → IsLeaf (value_offset e args)
  unfolding value_offset
  value_offset-IsLeaf e (Argument.value v ∷ Argument.offset w ∷ []) h = h v w
  value_offset-IsLeaf e _ h = tt

  pub value_scalar-IsLeaf :
      (e : ℕ → F → EventAst F) (args : Arguments F)
      → ((v : ℕ) (w : F) → count_event (e v w) ≡ 1)
      → IsLeaf (value_scalar e args)
  unfolding value_scalar
  value_scalar-IsLeaf e (Argument.value v ∷ Argument.scalar w ∷ []) h = h v w
  value_scalar-IsLeaf e _ h = tt

  pub value_bool-IsLeaf :
      (e : ℕ → Bool → EventAst F) (args : Arguments F)
      → ((v : ℕ) (w : Bool) → count_event (e v w) ≡ 1)
      → IsLeaf (value_bool e args)
  unfolding value_bool
  value_bool-IsLeaf e (Argument.value v ∷ Argument.bool w ∷ []) h = h v w
  value_bool-IsLeaf e _ h = tt

  pub value_variable-IsLeaf :
      (e : ℕ → VariableAst → EventAst F) (args : Arguments F)
      → ((v : ℕ) (w : VariableAst) → count_event (e v w) ≡ 1)
      → IsLeaf (value_variable e args)
  unfolding value_variable
  value_variable-IsLeaf e (Argument.value v ∷ Argument.variable w ∷ []) h = h v _
  value_variable-IsLeaf e _ h = tt

  pub float_variable-IsLeaf :
      (e : FloatValue F → VariableAst → EventAst F) (args : Arguments F)
      → ((v : FloatValue F) (w : VariableAst) → count_event (e v w) ≡ 1)
      → IsLeaf (float_variable e args)
  unfolding float_variable
  float_variable-IsLeaf e (Argument.scalar v ∷ Argument.variable w ∷ []) h = h _ _
  float_variable-IsLeaf e (Argument.variable v ∷ Argument.variable w ∷ []) h = h _ _
  float_variable-IsLeaf e _ h = tt
