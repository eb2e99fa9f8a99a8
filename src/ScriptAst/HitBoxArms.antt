-- ===== src/ScriptAst/HitBoxArms.antt =====
-- The arms of `process_block` in src/script_ast/mod.rs that create hitboxes, with the fields that the
-- bits of their arguments give.
use brawllib_rs.Prelude.{ℕ, ◌*◌, ◌^◌, Option, none, some, ◌∷◌}
use brawllib_rs.VariableAst.Ast.{variable_ast}
use brawllib_rs.Script.Argument.{Argument, value, scalar, variable}
use brawllib_rs.ScriptAst.Options.{◌>>=◌}
use brawllib_rs.ScriptAst.Shapes.{Arguments, bits, test_bit}
use brawllib_rs.ScriptAst.Kinds.{angle_flip}
use brawllib_rs.ScriptAst.HitBoxKinds.{HitBoxSound, hit_box_effect, hit_box_sound, hit_box_sse_type}
use brawllib_rs.ScriptAst.HitBoxes.{FloatValue, HitBoxArguments}
use brawllib_rs.ScriptAst.Tree.{EventAst}

-- `value as f32` of an i32.
module _ {F : Type 0} (as_f32 : ℕ → F) where
  -- A value or a variable.
  unfoldable pub float_value : Argument F → Option (FloatValue F)
  float_value (value v) = some (FloatValue.constant (as_f32 v))
  float_value (variable v) = some (FloatValue.variable (variable_ast v))
  float_value _ = none

module _ {F : Type 0} where
  -- The fields of a hitbox. `sound` is computed from `v12` in a way of its own by each arm.
  unfoldable pub hit_box_arguments :
      FloatValue F
      → HitBoxSound
      → (v0 v2 v3 v4 : ℕ) (v5 v6 v7 v8 v9 v10 v11 : F) (v12 : ℕ) → HitBoxArguments F
  hit_box_arguments damage sound v0 v2 v3 v4 v5 v6 v7 v8 v9 v10 v11 v12 = record {
    bone_index = bits v0 16 16;
    set_id = bits v0 8 8;
    hitbox_id = bits v0 0 8;
    damage = damage;
    trajectory = v2;
    wdsk = bits v3 16 16;
    kbg = bits v3 0 16;
    shield_damage = bits v4 16 16;
    bkb = bits v4 0 16;
    size = v5;
    x_offset = v6;
    y_offset = v7;
    z_offset = v8;
    tripping_rate = v9;
    hitlag_mult = v10;
    sdi_mult = v11;
    effect = hit_box_effect (bits v12 0 5);
    unk1 = test_bit v12 5;
    sound_level = bits v12 6 2;
    unk2 = test_bit v12 8;
    sound = sound;
    unk3 = bits v12 14 2;
    ground = test_bit v12 16;
    aerial = test_bit v12 17;
    unk4 = bits v12 18 4;
    sse_type = hit_box_sse_type (bits v12 22 5);
    clang = test_bit v12 27;
    unk5 = test_bit v12 28;
    direct = test_bit v12 29;
    unk6 = bits v12 30 2;
  }

module _ {F : Type 0} (as_f32 : ℕ → F) where
  -- 0x00 of namespace 0x06
  unfoldable pub create_hit_box : Arguments F → Option (EventAst F)
  create_hit_box
        (value v0
          ∷ v1
          ∷ value v2
          ∷ value v3
          ∷ value v4
          ∷ scalar v5
          ∷ scalar v6
          ∷ scalar v7
          ∷ scalar v8
          ∷ scalar v9
          ∷ scalar v10
          ∷ scalar v11
          ∷ value v12
          ∷ _) =
      do
        damage ← float_value as_f32 v1
        some (
            EventAst.create_hit_box (
              hit_box_arguments damage (hit_box_sound (bits v12 9 5)) v0 v2 v3 v4 v5 v6 v7 v8 v9 v10
                v11 v12))
  create_hit_box _ = none

  -- 0x2B of namespace 0x06
  unfoldable pub thrown_hit_box : Arguments F → Option (EventAst F)
  thrown_hit_box
        (value v0
          ∷ value v1
          ∷ value v2
          ∷ value v3
          ∷ value v4
          ∷ scalar v5
          ∷ scalar v6
          ∷ scalar v7
          ∷ scalar v8
          ∷ scalar v9
          ∷ scalar v10
          ∷ scalar v11
          ∷ value v12
          ∷ _) =
      some (
        EventAst.thrown_hit_box (
          hit_box_arguments (FloatValue.constant (as_f32 v1)) (hit_box_sound (bits v12 9 5)) v0 v2
            v3 v4 v5 v6 v7 v8 v9 v10 v11 v12))
  thrown_hit_box _ = none

  -- 0x15 of namespace 0x06: its sound is `(v12 & 0b11_1110_0000_0000) >> 6`.
  unfoldable pub create_special_hit_box : Arguments F → Option (EventAst F)
  create_special_hit_box
        (value v0
          ∷ v1
          ∷ value v2
          ∷ value v3
          ∷ value v4
          ∷ scalar v5
          ∷ scalar v6
          ∷ scalar v7
          ∷ scalar v8
          ∷ scalar v9
          ∷ scalar v10
          ∷ scalar v11
          ∷ value v12
          ∷ value v13
          ∷ value v14
          ∷ _) =
      do
        damage ← float_value as_f32 v1
        some (
            EventAst.create_special_hit_box (record {
              hitbox_args =
                  hit_box_arguments damage (hit_box_sound (bits v12 9 5 * 2 ^ 3)) v0 v2 v3 v4 v5 v6
                    v7 v8 v9 v10 v11 v12;
              rehit_rate = v13;
              angle_flipping = angle_flip (bits v14 0 3);
              unk1 = test_bit v14 3;
              stretches_to_bone = test_bit v14 4;
              unk2 = test_bit v14 5;
              can_hit1 = test_bit v14 6;
              can_hit2 = test_bit v14 7;
              can_hit3 = test_bit v14 8;
              can_hit4 = test_bit v14 9;
              can_hit5 = test_bit v14 10;
              can_hit6 = test_bit v14 11;
              can_hit7 = test_bit v14 12;
              can_hit8 = test_bit v14 13;
              can_hit9 = test_bit v14 14;
              can_hit10 = test_bit v14 15;
              can_hit11 = test_bit v14 16;
              can_hit12 = test_bit v14 17;
              can_hit13 = test_bit v14 18;
              enabled = test_bit v14 19;
              unk3 = bits v14 20 2;
              can_be_shielded = test_bit v14 22;
              can_be_reflected = test_bit v14 23;
              can_be_absorbed = test_bit v14 24;
              unk4 = bits v14 25 2;
              remain_grabbed = test_bit v14 27;
              ignore_invincibility = test_bit v14 28;
              freeze_frame_disable = test_bit v14 29;
              unk5 = test_bit v14 30;
              flinchless = test_bit v14 31;
            }))
  create_special_hit_box _ = none
