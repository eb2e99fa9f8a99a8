-- ===== src/ScriptAst/StateArms.antt =====
-- The arms of `process_block` in src/script_ast/mod.rs for the state of the fighter, the controller,
-- articles, movement and sound.
use brawllib_rs.Prelude.{ℕ, true, not, Option, none, some, [], ◌∷◌, ◌==◌, if◌then◌else◌}
use brawllib_rs.VariableAst.Ast.{variable_ast}
use brawllib_rs.Script.Argument.{value, scalar, bool, variable}
use brawllib_rs.ScriptAst.Shapes.{
  Arguments, no_arguments, one_value, one_scalar, one_bool, two_values, value_scalar, value_bool,
}
use brawllib_rs.ScriptAst.Kinds.{edge_slide}
use brawllib_rs.ScriptAst.Switches.{ledge_grab_enable, armor_type, disable_movement}
use brawllib_rs.ScriptAst.HitBoxes.{FloatValue}
use brawllib_rs.ScriptAst.Tree.{EventAst}

module _ {F : Type 0} where
  -- Namespace 0x05: 0x00, and the codes of postures.
  unfoldable pub postures : (code : ℕ) → Arguments F → Option (EventAst F)
  postures code args =
      if code == 0x00
      then no_arguments EventAst.reverse_direction args
      else if code == 0x01
      then no_arguments (EventAst.posture 0x01) args
      else if code == 0x02
      then no_arguments (EventAst.posture 0x02) args
      else if code == 0x03
      then no_arguments (EventAst.posture 0x03) args
      else if code == 0x04
      then no_arguments (EventAst.posture 0x04) args
      else if code == 0x07
      then no_arguments (EventAst.posture 0x07) args
      else if code == 0x0D
      then no_arguments (EventAst.posture 0x0D) args
      else none

  -- Namespace 0x08
  unfoldable pub edges : (code : ℕ) → Arguments F → Option (EventAst F)
  edges code args =
      if code == 0x00 then one_value (λ v0. EventAst.set_edge_slide (edge_slide v0)) args else none

  -- 0x06 of namespace 0x07
  unfoldable pub controller_unk : Arguments F → Option (EventAst F)
  controller_unk (bool v0 ∷ []) = some (EventAst.controller_unk06 v0)
  controller_unk [] = some EventAst.controller_unk0c
  controller_unk _ = none

  -- Namespace 0x07
  unfoldable pub controller : (code : ℕ) → Arguments F → Option (EventAst F)
  controller code args =
      if code == 0x00
      then no_arguments EventAst.controller_clear_buffer args
      else if code == 0x01
      then no_arguments EventAst.controller_unk01 args
      else if code == 0x02
      then no_arguments EventAst.controller_unk02 args
      else if code == 0x06
      then controller_unk args
      else if code == 0x07
      then two_values EventAst.rumble args
      else if code == 0x0B
      then two_values EventAst.rumble_loop args
      else none

  -- Namespace 0x18
  unfoldable pub slopes : (code : ℕ) → Arguments F → Option (EventAst F)
  slopes code args =
      if code == 0x00
      then one_value EventAst.slope_contour_stand args
      else if code == 0x01
      then two_values EventAst.slope_contour_full args
      else none

  -- 0x00 of namespace 0x10
  unfoldable pub generate_article : Arguments F → Option (EventAst F)
  generate_article (value v0 ∷ []) = some (EventAst.generate_article v0 true)
  generate_article (value v0 ∷ bool v1 ∷ []) = some (EventAst.generate_article v0 v1)
  generate_article _ = none

  -- Namespace 0x10
  unfoldable pub articles : (code : ℕ) → Arguments F → Option (EventAst F)
  articles code args =
      if code == 0x00
      then generate_article args
      else if code == 0x01
      then one_value EventAst.article_event args
      else if code == 0x02
      then one_value EventAst.article_animation args
      else if code == 0x03
      then one_value EventAst.article_remove args
      else if code == 0x05
      then value_bool EventAst.article_visibility args
      else none

  -- Namespace 0x0C, its sounds included.
  unfoldable pub fighter : (code : ℕ) → Arguments F → Option (EventAst F)
  fighter code args =
      if code == 0x23
      then two_values EventAst.time_manipulation args
      else if code == 0x06
      then no_arguments EventAst.final_smash_enter args
      else if code == 0x07
      then no_arguments EventAst.final_smash_exit args
      else if code == 0x08
      then no_arguments EventAst.terminate_self args
      else if code == 0x09
      then one_value (λ v0. EventAst.ledge_grab_enable (ledge_grab_enable v0)) args
      else if code == 0x25
      then one_bool EventAst.tag_display args
      else if code == 0x0B
      then no_arguments EventAst.sound_voice_low args
      else if code == 0x19
      then no_arguments EventAst.sound_voice_damage args
      else if code == 0x1D
      then no_arguments EventAst.sound_voice_ottotto args
      else if code == 0x1F
      then no_arguments EventAst.sound_voice_eating args
      else none

  -- Namespace 0x1E
  unfoldable pub armor : (code : ℕ) → Arguments F → Option (EventAst F)
  armor code args =
      if code == 0x00
      then value_scalar (λ v0 v1. EventAst.armor (armor_type v0) v1) args
      else if code == 0x03
      then one_scalar EventAst.add_damage args
      else none

  -- 0x08 of namespace 0x0E
  unfoldable pub set_velocity : Arguments F → Option (EventAst F)
  set_velocity (scalar v0 ∷ scalar v1 ∷ value v2 ∷ value v3 ∷ _) = some (
      EventAst.set_or_add_velocity
        (record { x_vel = v0; y_vel = v1; x_set = not (v2 == 0); y_set = not (v3 == 0) }))
  set_velocity (scalar v0 ∷ scalar v1 ∷ []) = some (EventAst.set_velocity v0 v1)
  set_velocity _ = none

  -- 0x01 of namespace 0x0E
  unfoldable pub add_velocity : Arguments F → Option (EventAst F)
  add_velocity (scalar v0 ∷ scalar v1 ∷ []) =
      some (EventAst.add_velocity (FloatValue.constant v0) (FloatValue.constant v1))
  add_velocity (variable v0 ∷ scalar v1 ∷ []) =
      some (EventAst.add_velocity (FloatValue.variable (variable_ast v0)) (FloatValue.constant v1))
  add_velocity (scalar v0 ∷ variable v1 ∷ []) =
      some (EventAst.add_velocity (FloatValue.constant v0) (FloatValue.variable (variable_ast v1)))
  add_velocity (variable v0 ∷ variable v1 ∷ []) = some (
      EventAst.add_velocity (FloatValue.variable (variable_ast v0))
        (FloatValue.variable (variable_ast v1)))
  add_velocity _ = none

  -- Namespace 0x0E
  unfoldable pub movement : (code : ℕ) → Arguments F → Option (EventAst F)
  movement code args =
      if code == 0x00
      then one_value EventAst.set_air_ground args
      else if code == 0x08
      then set_velocity args
      else if code == 0x01
      then add_velocity args
      else if code == 0x06
      then one_value (λ v0. EventAst.disable_movement (disable_movement v0)) args
      else if code == 0x07
      then one_value (λ v0. EventAst.disable_movement2 (disable_movement v0)) args
      else if code == 0x02
      then one_value (λ v0. EventAst.reset_vertical_velocity_and_acceleration (v0 == 1)) args
      else none

  -- Namespace 0x17
  unfoldable pub physics : (code : ℕ) → Arguments F → Option (EventAst F)
  physics code args = if code == 0x00 then no_arguments EventAst.normalize_physics args else none

  -- Namespace 0x0A
  unfoldable pub sounds : (code : ℕ) → Arguments F → Option (EventAst F)
  sounds code args =
      if code == 0x00
      then one_value EventAst.sound_effect1 args
      else if code == 0x01
      then one_value EventAst.sound_effect2 args
      else if code == 0x02
      then one_value EventAst.sound_effect_transient args
      else if code == 0x03
      then one_value EventAst.sound_effect_stop args
      else if code == 0x05
      then one_value EventAst.sound_effect_victory args
      else if code == 0x07
      then one_value EventAst.sound_effect_unk args
      else if code == 0x09
      then one_value EventAst.sound_effect_other1 args
      else if code == 0x0A
      then one_value EventAst.sound_effect_other2 args
      else none
