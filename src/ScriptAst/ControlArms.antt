-- ===== src/ScriptAst/ControlArms.antt =====
-- The arms of `process_block` in src/script_ast/mod.rs for the flow of the script, for interrupts and
-- for timing. The arms that read a nested block are in ScriptAst/Parse.
use brawllib_rs.Prelude.{
  ℕ, true, false, Option, none, some, [], ◌∷◌, get_elem?, ◌==◌, if◌then◌else◌,
}
use brawllib_rs.Script.Argument.{value, scalar, bool, requirement}
use brawllib_rs.ScriptAst.Options.{◌>>=◌}
use brawllib_rs.ScriptAst.Shapes.{
  Arguments, no_arguments, one_value, one_scalar, one_offset, two_values, value_offset,
}
use brawllib_rs.ScriptAst.Switches.{interrupt_type}
use brawllib_rs.ScriptAst.Expression.{Expression, from_args}
use brawllib_rs.ScriptAst.Tree.{EventAst}

module _ {F : Type 0} where
  -- A requirement and what it is tested on: the arguments of `Expression::from_args` when the
  -- requirement is the first of `args`.
  unfoldable pub test : Arguments F → Option (Expression F)
  test (requirement flip ty ∷ args) =
      from_args ty flip (get_elem? args 0) (get_elem? args 1) (get_elem? args 2)
  test _ = none

  -- 0x02 of namespace 0x00
  unfoldable pub async_wait : Arguments F → Option (EventAst F)
  async_wait [] = some EventAst.nop
  async_wait (scalar v0 ∷ []) = some (EventAst.async_wait v0)
  async_wait _ = none

  -- 0x11 of namespace 0x00
  unfoldable pub case : Arguments F → Option (EventAst F)
  case (value v0 ∷ []) = some (EventAst.case v0)
  case [] = some EventAst.default_case
  case _ = none

  -- Namespace 0x00, but for the events that begin and end a block.
  unfoldable pub flow : (code : ℕ) → Arguments F → Option (EventAst F)
  flow code args =
      if code == 0x01
      then one_scalar EventAst.sync_wait args
      else if code == 0x02
      then async_wait args
      else if code == 0x07
      then one_offset EventAst.subroutine args
      else if code == 0x08
      then no_arguments EventAst.return args
      else if code == 0x09
      then one_offset EventAst.goto args
      else if code == 0x0B
      then (test args >>= λ t. some (EventAst.if_statement_and t))
      else if code == 0x0C
      then (test args >>= λ t. some (EventAst.if_statement_or t))
      else if code == 0x10
      then two_values EventAst.switch args
      else if code == 0x11
      then case args
      else if code == 0x13
      then no_arguments EventAst.end_switch args
      else none

  -- Namespace 0x01
  unfoldable pub loop_rest : (code : ℕ) → Arguments F → Option (EventAst F)
  loop_rest code args = if code == 0x01 then no_arguments EventAst.loop_rest args else none

  -- Namespace 0x0D
  unfoldable pub threads : (code : ℕ) → Arguments F → Option (EventAst F)
  threads code args =
      if code == 0x00
      then value_offset EventAst.call_every_frame args
      else if code == 0x01
      then one_value EventAst.remove_call_every_frame args
      else if code == 0x05
      then value_offset EventAst.independent_subroutine args
      else if code == 0x06
      then one_value EventAst.remove_independent_subroutine args
      else if code == 0x07
      then two_values EventAst.set_independent_subroutine_thread_type args
      else none

  -- 0x00 and 0x01 of namespace 0x02: an interrupt with an id, and one without.
  unfoldable pub create_interrupt : Arguments F → Option (EventAst F)
  create_interrupt (value v0 ∷ value v1 ∷ args) = do
    t ← test args
    some (EventAst.create_interrupt (record { interrupt_id = some v0; action = v1; test = t }))
  create_interrupt _ = none

  unfoldable pub create_plain_interrupt : Arguments F → Option (EventAst F)
  create_plain_interrupt (value v0 ∷ args) = do
    t ← test args
    some (EventAst.create_interrupt (record { interrupt_id = none; action = v0; test = t }))
  create_plain_interrupt _ = none

  -- 0x05 of namespace 0x02
  unfoldable pub interrupt_add_requirement : Arguments F → Option (EventAst F)
  interrupt_add_requirement (value v0 ∷ value v1 ∷ args) = do
    t ← test args
    some (EventAst.interrupt_add_requirement (interrupt_type v0) v1 t)
  interrupt_add_requirement _ = none

  -- Namespace 0x02
  unfoldable pub interrupts : (code : ℕ) → Arguments F → Option (EventAst F)
  interrupts code args =
      if code == 0x00
      then create_interrupt args
      else if code == 0x01
      then create_plain_interrupt args
      else if code == 0x04
      then (test args >>= λ t. some (EventAst.previous_interrupt_add_requirement t))
      else if code == 0x05
      then interrupt_add_requirement args
      else if code == 0x06
      then one_value EventAst.enable_interrupt args
      else if code == 0x08
      then one_value EventAst.disable_interrupt args
      else if code == 0x09
      then two_values (λ v0 v1. EventAst.toggle_interrupt (interrupt_type v0) v1) args
      else if code == 0x0A
      then one_value (λ v0. EventAst.enable_interrupt_group (interrupt_type v0)) args
      else if code == 0x0B
      then one_value (λ v0. EventAst.disable_interrupt_group (interrupt_type v0)) args
      else if code == 0x0C
      then one_value (λ v0. EventAst.clear_interrupt_group (interrupt_type v0)) args
      else none

  -- Namespace 0x64
  unfoldable pub allow_interrupts : (code : ℕ) → Arguments F → Option (EventAst F)
  allow_interrupts code args =
      if code == 0x00
      then no_arguments EventAst.allow_interrupts args
      else if code == 0x01
      then no_arguments EventAst.disallow_interrupts args
      else none

  -- 0x00 of namespace 0x04
  unfoldable pub change_subaction : Arguments F → Option (EventAst F)
  change_subaction (value v0 ∷ []) = some (EventAst.change_subaction_restart_frame v0)
  change_subaction (value v0 ∷ bool true ∷ []) = some (EventAst.change_subaction v0)
  change_subaction (value v0 ∷ bool false ∷ []) = some (EventAst.change_subaction_restart_frame v0)
  change_subaction _ = none

  -- 0x07 of namespace 0x04
  unfoldable pub frame_speed_modifier : Arguments F → Option (EventAst F)
  frame_speed_modifier (scalar v0 ∷ []) = some (EventAst.frame_speed_modifier v0 0)
  frame_speed_modifier (scalar v0 ∷ value v1 ∷ []) = some (EventAst.frame_speed_modifier v0 v1)
  frame_speed_modifier _ = none

  -- Namespace 0x04
  unfoldable pub timing : (code : ℕ) → Arguments F → Option (EventAst F)
  timing code args =
      if code == 0x00
      then change_subaction args
      else if code == 0x06
      then one_scalar EventAst.set_animation_frame args
      else if code == 0x07
      then frame_speed_modifier args
      else if code == 0x14
      then one_scalar EventAst.set_animation_and_timer_frame args
      else none
