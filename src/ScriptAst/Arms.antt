-- ===== src/ScriptAst/Arms.antt =====
-- The match of `process_block` in src/script_ast/mod.rs: the events that begin and end a block, and the
-- event that each of the others gives.
use brawllib_rs.Prelude.{ℕ, Option, none, some, [], ◌∷◌, ◌==◌, if◌then◌else◌}
use brawllib_rs.Outcome.{Outcome, ok, ◌>>=◌}
use brawllib_rs.Script.Argument.{Event, value}
use brawllib_rs.ScriptAst.Shapes.{Arguments}
use brawllib_rs.ScriptAst.ControlArms.{
  test, flow, loop_rest, threads, interrupts, allow_interrupts, timing,
}
use brawllib_rs.ScriptAst.CollisionArms.{collisions}
use brawllib_rs.ScriptAst.StateArms.{
  postures, edges, controller, slopes, articles, fighter, armor, movement, physics, sounds,
}
use brawllib_rs.ScriptAst.GraphicArms.{models, effects}
use brawllib_rs.ScriptAst.OtherArms.{wind, camera, flashes, variables, items}
use brawllib_rs.ScriptAst.Expression.{Expression}
use brawllib_rs.ScriptAst.Tree.{EventAst, Iterations, iterations_of}

-- An event after which a block is read by a recursive call.
pub data Opener (F : Type 0) : Type 0 where
  loop : Iterations → Opener F
  condition : Expression F → Opener F
  otherwise : Opener F
  otherwise_if : Expression F → Opener F

pub data Nesting (F : Type 0) : Type 0 where
  plain : Nesting F
  opens : Opener F → Nesting F
  end_loop : Nesting F
  end_condition : Nesting F

module _ {F : Type 0} where
  -- (0x00, 0x04) and (0x00, 0x05)
  unfoldable pub begin_loop : Arguments F → Nesting F
  begin_loop (value v0 ∷ []) = opens (loop (iterations_of v0))
  begin_loop _ = plain

  unfoldable pub bare : Nesting F → Arguments F → Nesting F
  bare n [] = n
  bare n _ = plain

  -- (0x00, 0x0A) and (0x00, 0x0D): without a test the event is unknown.
  unfoldable pub begin_test : (Expression F → Opener F) → Option (Expression F) → Nesting F
  begin_test o none = plain
  begin_test o (some t) = opens (o t)

  unfoldable pub nesting_of : Event F → Nesting F
  nesting_of event =
      if event.namespace == 0x00
      then (if event.code == 0x04
          then begin_loop event.arguments
          else if event.code == 0x05
          then bare end_loop event.arguments
          else if event.code == 0x0A
          then begin_test condition (test event.arguments)
          else if event.code == 0x0E
          then bare (opens otherwise) event.arguments
          else if event.code == 0x0D
          then begin_test otherwise_if (test event.arguments)
          else if event.code == 0x0F
          then bare end_condition event.arguments
          else plain)
      else plain

  -- `_ => EventAst::Unknown (event.clone())`
  unfoldable pub or_unknown : Event F → Option (EventAst F) → EventAst F
  or_unknown event none = EventAst.unknown event
  or_unknown event (some e) = e

  -- The arms of the namespaces that never panic.
  unfoldable pub other_arms : (namespace code : ℕ) → Arguments F → Option (EventAst F)
  other_arms namespace code args =
      if namespace == 0x00
      then flow code args
      else if namespace == 0x01
      then loop_rest code args
      else if namespace == 0x02
      then interrupts code args
      else if namespace == 0x04
      then timing code args
      else if namespace == 0x05
      then postures code args
      else if namespace == 0x07
      then controller code args
      else if namespace == 0x08
      then edges code args
      else if namespace == 0x0A
      then sounds code args
      else if namespace == 0x0B
      then models code args
      else if namespace == 0x0C
      then fighter code args
      else if namespace == 0x0D
      then threads code args
      else if namespace == 0x0E
      then movement code args
      else if namespace == 0x10
      then articles code args
      else if namespace == 0x11
      then effects code args
      else if namespace == 0x12
      then variables code args
      else if namespace == 0x14
      then wind code args
      else if namespace == 0x17
      then physics code args
      else if namespace == 0x18
      then slopes code args
      else if namespace == 0x1A
      then camera code args
      else if namespace == 0x1E
      then armor code args
      else if namespace == 0x1F
      then items code args
      else if namespace == 0x21
      then flashes code args
      else if namespace == 0x64
      then allow_interrupts code args
      else none

module _ {F : Type 0} (as_f32 : ℕ → F) where
  -- The arms of the events that neither begin nor end a block.
  unfoldable pub event_ast : Event F → Outcome (EventAst F)
  event_ast event =
      if event.namespace == 0x06
      then (collisions as_f32 event.code event.arguments >>= λ e. ok (or_unknown event e))
      else ok (or_unknown event (other_arms event.namespace event.code event.arguments))
