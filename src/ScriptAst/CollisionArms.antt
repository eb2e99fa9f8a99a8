-- ===== src/ScriptAst/CollisionArms.antt =====
-- The arms of `process_block` in src/script_ast/mod.rs for hitboxes, grab boxes, throws and hurtboxes,
-- which is namespace 0x06. Two of them may panic.
use brawllib_rs.Prelude.{ℕ, Option, none, some, [], ◌∷◌, get_elem?, ◌==◌, leb, if◌then◌else◌}
use brawllib_rs.Outcome.{Outcome, ok, panic}
use brawllib_rs.VariableAst.Ast.{variable_ast}
use brawllib_rs.Script.Argument.{Argument, value, scalar, bool, variable}
use brawllib_rs.ScriptAst.Shapes.{Arguments, no_arguments, one_value, two_values}
use brawllib_rs.ScriptAst.Kinds.{
  hurt_box_state, defensive_collision_type, defensive_collision_direction, grab_target, throw_use,
}
use brawllib_rs.ScriptAst.HitBoxKinds.{hit_box_effect, hit_box_sound}
use brawllib_rs.ScriptAst.HitBoxes.{FloatValue}
use brawllib_rs.ScriptAst.HitBoxArms.{
  float_value, create_hit_box, thrown_hit_box, create_special_hit_box,
}
use brawllib_rs.ScriptAst.Tree.{EventAst}

module _ {F : Type 0} where
  -- 0x17
  unfoldable pub defensive_collision : Arguments F → Option (EventAst F)
  defensive_collision (value v0 ∷ value v1 ∷ value v2 ∷ _) = some (
      EventAst.defensive_collision (defensive_collision_type v0) v1
        (defensive_collision_direction v2))
  defensive_collision _ = none

  -- 0x1B
  unfoldable pub move_hit_box : Arguments F → Option (EventAst F)
  move_hit_box (value v0 ∷ value v1 ∷ scalar v2 ∷ scalar v3 ∷ scalar v4 ∷ _) = some (
      EventAst.move_hit_box (record {
        hitbox_id = v0;
        new_bone = v1;
        new_x_offset = v2;
        new_y_offset = v3;
        new_z_offset = v4;
      }))
  move_hit_box _ = none

  -- `if let Some(&Value(value)) = args.get(8) { Some(value) } else { None }`
  unfoldable pub value_of : Option (Argument F) → Option ℕ
  value_of (some (value v)) = some v
  value_of _ = none

  -- 0x0A: the assertion is on the id alone.
  unfoldable pub create_grab_box : Arguments F → Outcome (Option (EventAst F))
  create_grab_box
        (value v0
          ∷ value v1
          ∷ scalar v2
          ∷ scalar v3
          ∷ scalar v4
          ∷ scalar v5
          ∷ value v6
          ∷ value v7
          ∷ args) =
      if leb v0 0xFF
      then ok (
          some (
            EventAst.create_grab_box (record {
              hitbox_id = v0;
              bone_index = v1;
              size = v2;
              x_offset = v3;
              y_offset = v4;
              z_offset = v5;
              set_action = v6;
              target = grab_target v7;
              unk = value_of (get_elem? args 0);
            })))
      else panic
  create_grab_box _ = ok none

  -- 0x0E
  unfoldable pub specify_throw : Arguments F → Option (EventAst F)
  specify_throw
        (value v0
          ∷ value v1
          ∷ value v2
          ∷ value v3
          ∷ value v4
          ∷ value v5
          ∷ value v6
          ∷ value v7
          ∷ scalar v8
          ∷ scalar v9
          ∷ scalar v10
          ∷ value v11
          ∷ value v12
          ∷ value v13
          ∷ bool v14
          ∷ bool v15
          ∷ value v16
          ∷ _) =
      some (
        EventAst.specify_throw (record {
          throw_use = throw_use v0;
          bone = v1;
          damage = v2;
          trajectory = v3;
          kbg = v4;
          wdsk = v5;
          bkb = v6;
          effect = hit_box_effect v7;
          unk0 = v8;
          unk1 = v9;
          unk2 = v10;
          unk3 = v11;
          sfx = hit_box_sound v12;
          grab_target = grab_target v13;
          unk4 = v14;
          unk5 = v15;
          i_frames = v16;
        }))
  specify_throw _ = none

  -- 0x0F
  unfoldable pub apply_throw : Arguments F → Option (EventAst F)
  apply_throw (value v0 ∷ value v1 ∷ variable v2 ∷ variable v3 ∷ variable v4 ∷ _) = some (
      EventAst.apply_throw (record {
        unk0 = v0;
        bone = v1;
        unk1 = variable_ast v2;
        unk2 = variable_ast v3;
        unk3 = variable_ast v4;
      }))
  apply_throw _ = none

module _ {F : Type 0} (as_f32 : ℕ → F) where
  -- The damage that 0x14 adds.
  unfoldable pub added_damage : ℕ → Option (FloatValue F) → Option (EventAst F)
  added_damage v0 none = none
  added_damage v0 (some d) = some (EventAst.add_hit_box_damage v0 d)

  -- 0x14: `(0x06, 0x14, a, b, c) => panic!(..)` is the arm below the one that gives an event.
  unfoldable pub add_hit_box_damage : Arguments F → Outcome (Option (EventAst F))
  unfolding added_damage
  add_hit_box_damage (value v0 ∷ v1 ∷ []) = ok (added_damage v0 (float_value as_f32 v1))
  add_hit_box_damage _ = panic

  -- Namespace 0x06
  unfoldable pub collisions : (code : ℕ) → Arguments F → Outcome (Option (EventAst F))
  collisions code args =
      if code == 0x04
      then ok (no_arguments EventAst.delete_all_hit_boxes args)
      else if code == 0x00
      then ok (create_hit_box as_f32 args)
      else if code == 0x2B
      then ok (thrown_hit_box as_f32 args)
      else if code == 0x15
      then ok (create_special_hit_box as_f32 args)
      else if code == 0x17
      then ok (defensive_collision args)
      else if code == 0x1B
      then ok (move_hit_box args)
      else if code == 0x01
      then ok (two_values EventAst.change_hit_box_damage args)
      else if code == 0x02
      then ok (two_values EventAst.change_hit_box_size args)
      else if code == 0x03
      then ok (one_value EventAst.delete_hit_box args)
      else if code == 0x0A
      then create_grab_box args
      else if code == 0x0C
      then ok (one_value EventAst.delete_grab_box args)
      else if code == 0x0D
      then ok (no_arguments EventAst.delete_all_grab_boxes args)
      else if code == 0x0E
      then ok (specify_throw args)
      else if code == 0x0F
      then ok (apply_throw args)
      else if code == 0x14
      then add_hit_box_damage args
      else if code == 0x05
      then ok (one_value (λ v0. EventAst.change_hurt_box_state_all (hurt_box_state v0)) args)
      else if code == 0x08
      then ok (
          two_values (λ v0 v1. EventAst.change_hurt_box_state_specific v0 (hurt_box_state v1)) args)
      else if code == 0x06
      then ok (one_value (λ _. EventAst.unchange_hurt_box_state_specific) args)
      else ok none
