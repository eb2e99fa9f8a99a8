-- ===== src/ScriptRunner/StepBody.antt =====
-- The arms of `step_event` in src/script_runner.rs for interrupts, movement, hurtboxes and the other fields
-- of a fighter.
use brawllib_rs.Prelude.{
  ℕ, ◌-◌, Bool, true, false, not, ◌&&◌, none, some, List, [], ◌∷◌, ◌++◌, ◌==◌, if◌then◌else◌,
}
use brawllib_rs.Outcome.{Outcome, ok, ◌>>=◌}
use brawllib_rs.ScriptAst.Kinds.{ThrowUse, throw, grab_interrupt}
use brawllib_rs.ScriptAst.HitBoxes.{SpecifyThrow}
use brawllib_rs.ScriptAst.Effects.{SetOrAddVelocity}
use brawllib_rs.ScriptAst.Expression.{Expression, ComparisonOperator, Interrupt}
use brawllib_rs.ScriptAst.Tree.{EventAst}
use brawllib_rs.ScriptRunner.Numbers.{Floats, le_i32}
use brawllib_rs.ScriptRunner.Variables.{Variables, get_float_value}
use brawllib_rs.ScriptRunner.Expressions.{unwrap_bool, evaluate_expression}
use brawllib_rs.ScriptRunner.Maps.{insert}
use brawllib_rs.ScriptRunner.State.{Body, VelModify, value, ChangeSubaction}

-- `high_level_fighter::get_bone_index`
unfoldable pub get_bone_index : ℕ → ℕ
unfolding le_i32
get_bone_index index = if le_i32 400 index then index - 400 else index

module _ {F : Type 0} (fl : Floats F) (s : Variables F) where
  -- `evaluate_expression(..).unwrap_bool()`
  unfoldable pub test_holds : Expression F → Outcome Bool
  test_holds e = evaluate_expression fl s e >>= λ r. ok (unwrap_bool fl r)

  -- `CreateInterrupt`: the test is evaluated on the first frame alone.
  unfoldable pub create_interrupt : Interrupt F → Body F → Outcome (Body F)
  create_interrupt i b = do
    succeeds ← if fl.eq s.frame_index fl.zero then test_holds i.test else ok false
    ok (
        if succeeds
        then record b { bad_interrupts = b.bad_interrupts ++ i ∷ [] }
        else record b { interrupts = b.interrupts ++ i ∷ [] })

  -- `if let Some(interrupt) = self.interrupts.last_mut() { .. }`
  unfoldable pub add_requirement : Expression F → List (Interrupt F) → List (Interrupt F)
  add_requirement test [] = []
  add_requirement test (i ∷ []) =
      record i { test = Expression.binary i.test test ComparisonOperator.and } ∷ []
  add_requirement test (i ∷ j ∷ is) = i ∷ add_requirement test (j ∷ is)

  unfoldable pub specify_throw : SpecifyThrow F → Body F → Body F
  specify_throw t b = elim t.throw_use [
    | throw ↦ record b { throw = some t }
    | grab_interrupt ↦ record b { grab_interrupt_damage = some t.damage }
    | ThrowUse.unknown _ ↦ b
  ]

  -- The changes of a velocity, of the fighter and of what modified it.
  unfoldable pub set_x : F → Body F → Body F
  set_x v b = record b { x_vel = v; x_vel_modify = VelModify.set v }

  unfoldable pub set_y : F → Body F → Body F
  set_y v b = record b { y_vel = v; y_vel_modify = VelModify.set v }

  unfoldable pub add_x : F → Body F → Body F
  add_x v b = record b {
    x_vel = fl.add b.x_vel v;
    x_vel_modify = VelModify.add (fl.add (value fl b.x_vel_modify) v);
  }

  unfoldable pub add_y : F → Body F → Body F
  add_y v b = record b {
    y_vel = fl.add b.y_vel v;
    y_vel_modify = VelModify.add (fl.add (value fl b.y_vel_modify) v);
  }

  unfoldable pub set_or_add_velocity : SetOrAddVelocity F → Body F → Body F
  unfolding set_x set_y add_x add_y
  set_or_add_velocity v b =
      let b' = if v.x_set then set_x v.x_vel b else add_x v.x_vel b in
      if v.y_set then set_y v.y_vel b' else add_y v.y_vel b'

  -- Every other event leaves these fields as they are.
  unfoldable pub step_body : EventAst F → Body F → Outcome (Body F)
  unfolding test_holds create_interrupt add_requirement specify_throw set_x set_y add_x add_y
      set_or_add_velocity get_bone_index
  step_body (EventAst.create_interrupt i) b = create_interrupt i b
  step_body (EventAst.previous_interrupt_add_requirement test) b =
      ok (record b { interrupts = add_requirement test b.interrupts })
  step_body EventAst.allow_interrupts b = ok (record b { interruptible = true })
  step_body EventAst.disallow_interrupts b = ok (record b { interruptible = false })
  step_body (EventAst.change_subaction v) b =
      ok (record b { change_subaction = ChangeSubaction.change_subaction v })
  step_body (EventAst.change_subaction_restart_frame v) b =
      ok (record b { change_subaction = ChangeSubaction.change_subaction_restart_frame v })
  step_body (EventAst.set_animation_frame v) b = ok (record b { animation_index = v })
  step_body (EventAst.set_animation_and_timer_frame v) b = ok (record b { animation_index = v })
  step_body (EventAst.set_air_ground v) b = ok (record b { airbourne = v == 0 })
  step_body (EventAst.set_edge_slide v) b = ok (record b { edge_slide = v })
  step_body EventAst.reverse_direction b =
      ok (record b { reverse_direction = not b.reverse_direction })
  step_body (EventAst.specify_throw t) b = ok (specify_throw t b)
  step_body (EventAst.apply_throw _) b = ok (record b { throw_activate = true })
  step_body (EventAst.change_hurt_box_state_all state) b =
      ok (record b { hurtbox_state_all = state })
  step_body (EventAst.change_hurt_box_state_specific bone state) b =
      ok (record b { hurtbox_states = insert (get_bone_index bone) state b.hurtbox_states })
  step_body EventAst.unchange_hurt_box_state_specific b = ok (record b { hurtbox_states = [] })
  step_body (EventAst.rumble unk1 unk2) b = ok (record b { rumble = some (unk1, unk2) })
  step_body (EventAst.rumble_loop unk1 unk2) b = ok (record b { rumble_loop = some (unk1, unk2) })
  step_body (EventAst.slope_contour_stand leg_bone_parent) b = ok (record b {
    slope_contour_stand = if leg_bone_parent == 0 then none else some leg_bone_parent;
  })
  step_body (EventAst.slope_contour_full hip_n_or_top_n trans_bone) b = ok (record b {
    slope_contour_full =
        if (hip_n_or_top_n == 0) && (trans_bone == 0)
        then none
        else some (hip_n_or_top_n, trans_bone);
  })
  step_body (EventAst.ledge_grab_enable enable) b = ok (record b { ledge_grab_enable = enable })
  step_body (EventAst.tag_display display) b = ok (record b { tag_display = display })
  step_body (EventAst.armor armor_type tolerance) b =
      ok (record b { armor_type = armor_type; armor_tolerance = tolerance })
  step_body (EventAst.add_damage damage) b = ok (record b { damage = fl.add b.damage damage })
  step_body (EventAst.set_or_add_velocity v) b = ok (set_or_add_velocity v b)
  step_body (EventAst.set_velocity x_vel y_vel) b = ok (set_y y_vel (set_x x_vel b))
  step_body (EventAst.add_velocity x_vel y_vel) b = do
    x ← get_float_value fl s x_vel
    y ← get_float_value fl s y_vel
    ok (add_y y (add_x x b))
  step_body (EventAst.disable_movement disable_movement) b =
      ok (record b { disable_movement = disable_movement })
  step_body (EventAst.reset_vertical_velocity_and_acceleration reset) b =
      ok (if reset then set_y fl.zero b else b)
  step_body _ b = ok b
