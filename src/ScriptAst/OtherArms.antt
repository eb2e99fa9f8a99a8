-- ===== src/ScriptAst/OtherArms.antt =====
-- The arms of `process_block` in src/script_ast/mod.rs for wind, the camera, flashes, variables and
-- items.
use brawllib_rs.Prelude.{ℕ, Option, none, some, [], ◌∷◌, ◌==◌, if◌then◌else◌}
use brawllib_rs.VariableAst.Ast.{variable_ast}
use brawllib_rs.Script.Argument.{value, scalar, variable}
use brawllib_rs.ScriptAst.Shapes.{
  Arguments, no_arguments, one_value, one_bool, one_variable, value_scalar, value_variable,
  float_variable,
}
use brawllib_rs.ScriptAst.Tree.{EventAst}

module _ {F : Type 0} where
  -- 0x07 of namespace 0x14: the ninth argument is taken for two fields.
  unfoldable pub aesthetic_wind_effect : Arguments F → Option (EventAst F)
  aesthetic_wind_effect
        (value v0
          ∷ scalar v1
          ∷ scalar v2
          ∷ scalar v3
          ∷ scalar v4
          ∷ scalar v5
          ∷ scalar v6
          ∷ scalar v7
          ∷ scalar v8
          ∷ value v9
          ∷ _) =
      some (
        EventAst.aesthetic_wind_effect (record {
          unk1 = v0;
          unk2 = v1;
          stength = v2;
          speed = v3;
          size = v4;
          unk3 = v5;
          unk4 = v6;
          unk5 = v7;
          unk6 = v8;
          unk7 = v8;
          unk8 = v9;
        }))
  aesthetic_wind_effect _ = none

  -- Namespace 0x14
  unfoldable pub wind : (code : ℕ) → Arguments F → Option (EventAst F)
  wind code args =
      if code == 0x07
      then aesthetic_wind_effect args
      else if code == 0x04
      then one_value EventAst.end_aesthetic_wind_effect args
      else none

  -- 0x04 of namespace 0x1A
  unfoldable pub camera_closeup : Arguments F → Option (EventAst F)
  camera_closeup (value v0 ∷ value v1 ∷ scalar v2 ∷ scalar v3 ∷ scalar v4 ∷ _) = some (
      EventAst.camera_closeup
        (record { zoom_time = v0; unk = v1; distance = v2; x_angle = v3; y_angle = v4 }))
  camera_closeup _ = none

  -- Namespace 0x1A
  unfoldable pub camera : (code : ℕ) → Arguments F → Option (EventAst F)
  camera code args =
      if code == 0x00
      then one_value EventAst.screen_shake args
      else if code == 0x04
      then camera_closeup args
      else if code == 0x08
      then no_arguments EventAst.camera_normal args
      else none

  -- 0x01, 0x02, 0x05 and 0x07 of namespace 0x21
  unfoldable pub flash_effect_overlay : Arguments F → Option (EventAst F)
  flash_effect_overlay (value v0 ∷ value v1 ∷ value v2 ∷ value v3 ∷ _) =
      some (EventAst.flash_effect_overlay v0 v1 v2 v3)
  flash_effect_overlay _ = none

  unfoldable pub color_of_overlay : Arguments F → Option (EventAst F)
  color_of_overlay (value v0 ∷ value v1 ∷ value v2 ∷ value v3 ∷ value v4 ∷ _) =
      some (EventAst.set_color_of_flash_effect_overlay v0 v1 v2 v3 v4)
  color_of_overlay _ = none

  unfoldable pub flash_effect_light : Arguments F → Option (EventAst F)
  flash_effect_light (value v0 ∷ value v1 ∷ value v2 ∷ value v3 ∷ scalar v4 ∷ scalar v5 ∷ _) =
      some (EventAst.flash_effect_light v0 v1 v2 v3 v4 v5)
  flash_effect_light _ = none

  unfoldable pub color_of_light : Arguments F → Option (EventAst F)
  color_of_light (value v0 ∷ value v1 ∷ value v2 ∷ value v3 ∷ value v4 ∷ _) =
      some (EventAst.set_color_of_flash_effect_light v0 v1 v2 v3 v4)
  color_of_light _ = none

  -- Namespace 0x21
  unfoldable pub flashes : (code : ℕ) → Arguments F → Option (EventAst F)
  flashes code args =
      if code == 0x00
      then no_arguments EventAst.remove_flash_effect args
      else if code == 0x01
      then flash_effect_overlay args
      else if code == 0x02
      then color_of_overlay args
      else if code == 0x05
      then flash_effect_light args
      else if code == 0x07
      then color_of_light args
      else none

  -- Namespace 0x12
  unfoldable pub variables : (code : ℕ) → Arguments F → Option (EventAst F)
  variables code args =
      if code == 0x00
      then value_variable EventAst.int_variable_set args
      else if code == 0x01
      then value_variable EventAst.int_variable_add args
      else if code == 0x02
      then value_variable EventAst.int_variable_subtract args
      else if code == 0x03
      then one_variable EventAst.int_variable_increment args
      else if code == 0x04
      then one_variable EventAst.int_variable_decrement args
      else if code == 0x06
      then float_variable EventAst.float_variable_set args
      else if code == 0x07
      then float_variable EventAst.float_variable_add args
      else if code == 0x08
      then float_variable EventAst.float_variable_subtract args
      else if code == 0x0F
      then float_variable EventAst.float_variable_multiply args
      else if code == 0x10
      then float_variable EventAst.float_variable_divide args
      else if code == 0x0A
      then one_variable EventAst.bool_variable_set_true args
      else if code == 0x0B
      then one_variable EventAst.bool_variable_set_false args
      else none

  -- 0x00 of namespace 0x1F
  unfoldable pub item_pickup : Arguments F → Option (EventAst F)
  item_pickup (value v0 ∷ []) = some (EventAst.item_pickup v0 none none none)
  item_pickup (value v0 ∷ value v1 ∷ []) = some (EventAst.item_pickup v0 (some v1) none none)
  item_pickup (value v0 ∷ value v1 ∷ value v2 ∷ value v3 ∷ _) =
      some (EventAst.item_pickup v0 (some v1) (some v2) (some v3))
  item_pickup _ = none

  -- 0x01 of namespace 0x1F: five variables, or two scalars and a variable.
  unfoldable pub item_throw : Arguments F → Option (EventAst F)
  item_throw (variable v0 ∷ variable v1 ∷ variable v2 ∷ variable v3 ∷ variable v4 ∷ _) = some (
      EventAst.item_throw (variable_ast v0) (variable_ast v1) (variable_ast v2)
        (some (variable_ast v3)) (some (variable_ast v4)))
  item_throw (scalar v0 ∷ scalar v1 ∷ variable v2 ∷ _) =
      some (EventAst.item_throw2 v0 v1 (variable_ast v2))
  item_throw _ = none

  -- 0x0E of namespace 0x1F
  unfoldable pub item_throw_short : Arguments F → Option (EventAst F)
  item_throw_short (variable v0 ∷ variable v1 ∷ variable v2 ∷ _) =
      some (EventAst.item_throw (variable_ast v0) (variable_ast v1) (variable_ast v2) none none)
  item_throw_short _ = none

  -- Namespace 0x1F
  unfoldable pub items : (code : ℕ) → Arguments F → Option (EventAst F)
  items code args =
      if code == 0x00
      then item_pickup args
      else if code == 0x01
      then item_throw args
      else if code == 0x0E
      then item_throw_short args
      else if code == 0x02
      then no_arguments EventAst.item_drop args
      else if code == 0x03
      then one_value EventAst.item_consume args
      else if code == 0x04
      then value_scalar EventAst.item_set_property args
      else if code == 0x05
      then no_arguments EventAst.fire_weapon args
      else if code == 0x06
      then no_arguments EventAst.fire_projectile args
      else if code == 0x07
      then one_value EventAst.item1f args
      else if code == 0x08
      then one_value EventAst.item_create args
      else if code == 0x09
      then one_bool EventAst.item_visibility args
      else if code == 0x0A
      then no_arguments EventAst.item_delete args
      else if code == 0x0C
      then one_value EventAst.beam_sword_trail args
      else none
