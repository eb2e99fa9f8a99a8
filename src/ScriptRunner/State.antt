-- ===== src/ScriptRunner/State.antt =====
-- The data of src/script_runner.rs that the scripts of a subaction are run by: calls and their stacks, the
-- scripts that they may lead to, and the fields that events change.
use brawllib_rs.Prelude.{ℕ, Bool, true, false, Option, List}
use brawllib_rs.ScriptAst.Kinds.{EdgeSlide, HurtBoxState}
use brawllib_rs.ScriptAst.Switches.{LedgeGrabEnable, ArmorType, DisableMovement}
use brawllib_rs.ScriptAst.HitBoxes.{SpecifyThrow}
use brawllib_rs.ScriptAst.Expression.{Interrupt}
use brawllib_rs.ScriptAst.Tree.{Block, ElseBranch, no_else, ScriptAst}
use brawllib_rs.ScriptRunner.Numbers.{Floats}
use brawllib_rs.ScriptRunner.Variables.{Variables}
use brawllib_rs.ScriptRunner.HitBoxes.{Boxes}

-- `&ScriptAst`: two references are to one script if they have the same address.
pub record Located (F : Type 0) : Type 0 where
  pub address : ℕ
  pub script : ScriptAst F

pub record SectionScriptAst (F : Type 0) : Type 0 where
  pub script : Located F
  pub callers : List ℕ

pub record Scripts (F : Type 0) : Type 0 where
  pub fighter_scripts : List (Located F)
  pub common_scripts : List (Located F)
  pub section_scripts : List (SectionScriptAst F)

-- `home` is the address of the script whose block it is, if it is the block of a script.
pub record Call (F : Type 0) : Type 0 where
  pub block : Block F
  pub home : Option ℕ
  pub else_branch : ElseBranch F
  pub index : ℕ
  pub subroutine : Bool
  pub external : Bool
  pub if_statement : Bool
  pub execute : Bool

-- `calls` has the last call first.
pub record CallStack (F : Type 0) : Type 0 where
  pub calls : List (Call F)
  pub wait_until : F

pub record CallEveryFrame (F : Type 0) : Type 0 where
  pub block : Block F
  pub home : Option ℕ
  pub external : Bool

pub data ChangeSubaction : Type 0 where
  continue infinite_loop : ChangeSubaction
  change_subaction change_subaction_restart_frame interrupt : ℕ → ChangeSubaction

pub data VelModify (F : Type 0) : Type 0 where
  set add : F → VelModify F
  none : VelModify F

-- `VelModify::value`
unfoldable pub value : {F : Type 0} → Floats F → VelModify F → F
value fl (VelModify.set a) = a
value fl (VelModify.add a) = a
value fl VelModify.none = fl.zero

-- The fields of a `ScriptRunner` that events change, but for variables, boxes and calls.
pub record Body (F : Type 0) : Type 0 where
  pub animation_index : F
  pub interruptible : Bool
  pub hurtbox_state_all : HurtBoxState
  pub hurtbox_states : List (ℕ × HurtBoxState)
  pub ledge_grab_enable : LedgeGrabEnable
  pub tag_display : Bool
  pub x : F
  pub y : F
  pub x_vel : F
  pub y_vel : F
  pub x_vel_modify : VelModify F
  pub y_vel_modify : VelModify F
  pub disable_movement : DisableMovement
  pub armor_type : ArmorType
  pub armor_tolerance : F
  pub damage : F
  pub airbourne : Bool
  pub edge_slide : EdgeSlide
  pub reverse_direction : Bool
  pub change_subaction : ChangeSubaction
  pub invisible_bones : List ℕ
  pub interrupts : List (Interrupt F)
  pub bad_interrupts : List (Interrupt F)
  pub slope_contour_stand : Option ℕ
  pub slope_contour_full : Option (ℕ × ℕ)
  pub rumble : Option (ℕ × ℕ)
  pub rumble_loop : Option (ℕ × ℕ)
  pub grab_interrupt_damage : Option ℕ
  pub throw : Option (SpecifyThrow F)
  pub throw_activate : Bool

-- What events change about calls: `visited_gotos` has the last goto first.
pub record Flow (F : Type 0) : Type 0 where
  pub call_every_frame : List (ℕ × CallEveryFrame F)
  pub visited_gotos : List ℕ

-- All that events read and change.
pub record State (F : Type 0) : Type 0 where
  pub vars : Variables F
  pub boxes : Boxes F
  pub body : Body F
  pub flow : Flow F

-- A call of a block, as `new`, `step_script` and most events make it.
unfoldable pub plain_call : {F : Type 0} → Block F → Option ℕ → (external : Bool) → Call F
plain_call block home external = record {
  block = block;
  home = home;
  else_branch = no_else;
  index = 0;
  subroutine = false;
  external = external;
  if_statement = false;
  execute = true;
}
