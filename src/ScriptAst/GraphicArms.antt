-- ===== src/ScriptAst/GraphicArms.antt =====
-- The arms of `process_block` in src/script_ast/mod.rs for graphics and the camera.
use brawllib_rs.Prelude.{ℕ, Option, none, some, [], ◌∷◌, ◌==◌, if◌then◌else◌}
use brawllib_rs.Script.Argument.{value, scalar, bool}
use brawllib_rs.ScriptAst.Shapes.{Arguments, bits, one_value, two_values}
use brawllib_rs.ScriptAst.Tree.{EventAst}

module _ {F : Type 0} where
  -- Namespace 0x0B
  unfoldable pub models : (code : ℕ) → Arguments F → Option (EventAst F)
  models code args =
      if code == 0x00
      then two_values (EventAst.model_changer 0) args
      else if code == 0x01
      then two_values (EventAst.model_changer 1) args
      else none

  -- 0x1A and 0x1B of namespace 0x11
  unfoldable pub graphic_effect : Arguments F → Option (EventAst F)
  graphic_effect
        (value v0
          ∷ value v1
          ∷ scalar v2
          ∷ scalar v3
          ∷ scalar v4
          ∷ scalar v5
          ∷ scalar v6
          ∷ scalar v7
          ∷ scalar v8
          ∷ scalar v9
          ∷ scalar v10
          ∷ scalar v11
          ∷ scalar v12
          ∷ scalar v13
          ∷ scalar v14
          ∷ bool v15
          ∷ _) =
      some (
        EventAst.graphic_effect (record {
          graphic = v0;
          bone = v1;
          x_offset = v4;
          y_offset = v3;
          z_offset = v2;
          x_rotation = v7;
          y_rotation = v6;
          z_rotation = v5;
          scale = v8;
          random_x_offset = v11;
          random_y_offset = v10;
          random_z_offset = v9;
          random_x_rotation = v14;
          random_y_rotation = v13;
          random_z_rotation = v12;
          terminate_with_animation = v15;
        }))
  graphic_effect _ = none

  -- 0x00 of namespace 0x11
  unfoldable pub random_external_effect : Arguments F → Option (EventAst F)
  random_external_effect
        (value v0
          ∷ value v1
          ∷ scalar v2
          ∷ scalar v3
          ∷ scalar v4
          ∷ scalar v5
          ∷ scalar v6
          ∷ scalar v7
          ∷ scalar v8
          ∷ scalar v9
          ∷ scalar v10
          ∷ scalar v11
          ∷ scalar v12
          ∷ scalar v13
          ∷ scalar v14
          ∷ bool v15
          ∷ _) =
      some (
        EventAst.external_graphic_effect (record {
          file = bits v0 16 16;
          graphic = bits v0 0 16;
          bone = v1;
          x_offset = v4;
          y_offset = v3;
          z_offset = v2;
          x_rotation = v7;
          y_rotation = v6;
          z_rotation = v5;
          scale = v8;
          randomize = some (record {
            random_x_offset = v11;
            random_y_offset = v10;
            random_z_offset = v9;
            random_x_rotation = v14;
            random_y_rotation = v13;
            random_z_rotation = v12;
          });
          terminate_with_animation = v15;
        }))
  random_external_effect _ = none

  -- 0x01 and 0x02 of namespace 0x11
  unfoldable pub external_effect : Arguments F → Option (EventAst F)
  external_effect
        (value v0
          ∷ value v1
          ∷ scalar v2
          ∷ scalar v3
          ∷ scalar v4
          ∷ scalar v5
          ∷ scalar v6
          ∷ scalar v7
          ∷ scalar v8
          ∷ bool v9
          ∷ _) =
      some (
        EventAst.external_graphic_effect (record {
          file = bits v0 16 16;
          graphic = bits v0 0 16;
          bone = v1;
          x_offset = v4;
          y_offset = v3;
          z_offset = v2;
          x_rotation = v7;
          y_rotation = v6;
          z_rotation = v5;
          scale = v8;
          randomize = none;
          terminate_with_animation = v9;
        }))
  external_effect _ = none

  -- 0x17 of namespace 0x11: seven values, or exactly six of them.
  unfoldable pub screen_tint : Arguments F → Option (EventAst F)
  screen_tint (value v0 ∷ value v1 ∷ value v2 ∷ value v3 ∷ value v4 ∷ value v5 ∷ value v6 ∷ _) =
      some (
        EventAst.limited_screen_tint (record {
          transition_in_time = v0;
          red = v1;
          green = v2;
          blue = v3;
          alpha = v4;
          frame_count = v5;
          transition_out_time = v6;
        }))
  screen_tint (value v0 ∷ value v1 ∷ value v2 ∷ value v3 ∷ value v4 ∷ value v5 ∷ []) = some (
      EventAst.unlimited_screen_tint (record {
        tint_id = v0;
        transition_in_time = v1;
        red = v2;
        green = v3;
        blue = v4;
        alpha = v5;
      }))
  screen_tint _ = none

  -- 0x03 of namespace 0x11
  unfoldable pub sword_glow : Arguments F → Option (EventAst F)
  sword_glow
        (value v0
          ∷ value v1
          ∷ value v2
          ∷ scalar v3
          ∷ scalar v4
          ∷ scalar v5
          ∷ value v6
          ∷ scalar v7
          ∷ scalar v8
          ∷ scalar v9
          ∷ bool v10
          ∷ value v11
          ∷ value v12
          ∷ scalar v13
          ∷ scalar v14
          ∷ scalar v15
          ∷ scalar v16
          ∷ scalar v17
          ∷ scalar v18
          ∷ scalar v19
          ∷ _) =
      some (
        EventAst.sword_glow (record {
          color = v0;
          blur_length = v1;
          point1_bone = v2;
          point1_x_offset = v3;
          point1_y_offset = v4;
          point1_z_offset = v5;
          point2_bone = v6;
          point2_x_offset = v7;
          point2_y_offset = v8;
          point2_z_offset = v9;
          delete_after_subaction = v10;
          graphic_id = v11;
          bone_id = v12;
          x_offset = v13;
          y_offset = v14;
          z_offset = v15;
          x_rotation = v16;
          y_rotation = v17;
          z_rotation = v18;
          glow_length = v19;
        }))
  sword_glow _ = none

  -- Namespace 0x11
  unfoldable pub effects : (code : ℕ) → Arguments F → Option (EventAst F)
  effects code args =
      if code == 0x1A
      then graphic_effect args
      else if code == 0x1B
      then graphic_effect args
      else if code == 0x00
      then random_external_effect args
      else if code == 0x01
      then external_effect args
      else if code == 0x02
      then external_effect args
      else if code == 0x17
      then screen_tint args
      else if code == 0x18
      then two_values EventAst.end_unlimited_screen_tint args
      else if code == 0x03
      then sword_glow args
      else if code == 0x05
      then one_value EventAst.delete_sword_glow args
      else none
