-- ===== src/ScriptAst/Tree.antt =====
-- `EventAst` of src/script_ast/mod.rs with the source's constructors in the source's order, and
-- the results of `process_block`. A block is the Vec of its events; `ElseBranch` is the
-- `Option<Box<Block>>` of an if.
use brawllib_rs.Prelude.{ℕ, Bool, Option, ◌==◌, if◌then◌else◌}
use brawllib_rs.VariableAst.Ast.{VariableAst}
use brawllib_rs.Script.Argument.{Offset, Event}
use brawllib_rs.ScriptAst.Kinds.{
  EdgeSlide, HurtBoxState, DefensiveCollisionType, DefensiveCollisionDirection,
}
use brawllib_rs.ScriptAst.Switches.{LedgeGrabEnable, ArmorType, DisableMovement, InterruptType}
use brawllib_rs.ScriptAst.HitBoxes.{
  FloatValue, HitBoxArguments, SpecialHitBoxArguments, MoveHitBox, GrabBoxArguments, SpecifyThrow,
  ApplyThrow,
}
use brawllib_rs.ScriptAst.Effects.{
  SetOrAddVelocity, GraphicEffect, ExternalGraphicEffect, LimitedScreenTint, UnlimitedScreenTint,
  SwordGlow, AestheticWindEffect, CameraCloseup,
}
use brawllib_rs.ScriptAst.Expression.{Expression, Interrupt}

pub data Iterations : Type 0 where
  finite : ℕ → Iterations
  infinite : Iterations

-- `if v0 == -1 { Infinite } else { Finite (v0) }`
unfoldable pub iterations_of : ℕ → Iterations
iterations_of v0 = if v0 == 0xFFFFFFFF then Iterations.infinite else Iterations.finite v0

mutual
  pub data EventAst (F : Type 0) : Type 0 where
    sync_wait : F → EventAst F
    nop : EventAst F
    async_wait : F → EventAst F
    for_loop : (iterations : Iterations) (block : Block F) → EventAst F
    subroutine : Offset → EventAst F
    return : EventAst F
    goto : Offset → EventAst F
    if_statement :
        (test : Expression F) (then_branch : Block F) (else_branch : ElseBranch F) → EventAst F
    if_statement_and : Expression F → EventAst F
    if_statement_or : Expression F → EventAst F
    switch : ℕ → ℕ → EventAst F
    case : ℕ → EventAst F
    default_case : EventAst F
    end_switch : EventAst F
    loop_rest : EventAst F
    call_every_frame : (thread_id : ℕ) (offset : Offset) → EventAst F
    remove_call_every_frame : (thread_id : ℕ) → EventAst F
    independent_subroutine : (thread_id : ℕ) (offset : Offset) → EventAst F
    remove_independent_subroutine : (thread_id : ℕ) → EventAst F
    set_independent_subroutine_thread_type : (thread_id : ℕ) (thread_type : ℕ) → EventAst F
    enable_interrupt : ℕ → EventAst F
    disable_interrupt : ℕ → EventAst F
    toggle_interrupt : (interrupt_type : InterruptType) (interrupt_id : ℕ) → EventAst F
    enable_interrupt_group : InterruptType → EventAst F
    disable_interrupt_group : InterruptType → EventAst F
    clear_interrupt_group : InterruptType → EventAst F
    create_interrupt : Interrupt F → EventAst F
    previous_interrupt_add_requirement : (test : Expression F) → EventAst F
    interrupt_add_requirement :
        (interrupt_type : InterruptType) (interrupt_id : ℕ) (test : Expression F) → EventAst F
    allow_interrupts : EventAst F
    disallow_interrupts : EventAst F
    change_subaction : ℕ → EventAst F
    change_subaction_restart_frame : ℕ → EventAst F
    set_animation_frame : F → EventAst F
    frame_speed_modifier : (multiplier : F) (unk : ℕ) → EventAst F
    set_animation_and_timer_frame : F → EventAst F
    time_manipulation : ℕ → ℕ → EventAst F
    set_air_ground : ℕ → EventAst F
    set_edge_slide : EdgeSlide → EventAst F
    reverse_direction : EventAst F
    create_hit_box : HitBoxArguments F → EventAst F
    thrown_hit_box : HitBoxArguments F → EventAst F
    delete_all_hit_boxes : EventAst F
    create_special_hit_box : SpecialHitBoxArguments F → EventAst F
    defensive_collision :
        (ty : DefensiveCollisionType) (unk : ℕ) (direction : DefensiveCollisionDirection)
        → EventAst F
    move_hit_box : MoveHitBox F → EventAst F
    change_hit_box_damage : (hitbox_id : ℕ) (new_damage : ℕ) → EventAst F
    change_hit_box_size : (hitbox_id : ℕ) (new_size : ℕ) → EventAst F
    delete_hit_box : ℕ → EventAst F
    create_grab_box : GrabBoxArguments F → EventAst F
    delete_grab_box : ℕ → EventAst F
    delete_all_grab_boxes : EventAst F
    specify_throw : SpecifyThrow F → EventAst F
    apply_throw : ApplyThrow → EventAst F
    add_hit_box_damage : (hitbox_id : ℕ) (add_damage : FloatValue F) → EventAst F
    change_hurt_box_state_all : (state : HurtBoxState) → EventAst F
    change_hurt_box_state_specific : (bone : ℕ) (state : HurtBoxState) → EventAst F
    unchange_hurt_box_state_specific : EventAst F
    controller_clear_buffer : EventAst F
    controller_unk01 : EventAst F
    controller_unk02 : EventAst F
    controller_unk06 : Bool → EventAst F
    controller_unk0c : EventAst F
    rumble : (unk1 : ℕ) (unk2 : ℕ) → EventAst F
    rumble_loop : (unk1 : ℕ) (unk2 : ℕ) → EventAst F
    slope_contour_stand : (leg_bone_parent : ℕ) → EventAst F
    slope_contour_full : (hip_n_or_top_n : ℕ) (trans_bone : ℕ) → EventAst F
    generate_article : (article_id : ℕ) (subaction_only : Bool) → EventAst F
    article_event : ℕ → EventAst F
    article_animation : ℕ → EventAst F
    article_remove : ℕ → EventAst F
    article_visibility : (article_id : ℕ) (visibility : Bool) → EventAst F
    final_smash_enter : EventAst F
    final_smash_exit : EventAst F
    terminate_self : EventAst F
    ledge_grab_enable : LedgeGrabEnable → EventAst F
    tag_display : Bool → EventAst F
    armor : (armor_type : ArmorType) (tolerance : F) → EventAst F
    add_damage : F → EventAst F
    posture : ℕ → EventAst F
    set_or_add_velocity : SetOrAddVelocity F → EventAst F
    set_velocity : (x_vel : F) (y_vel : F) → EventAst F
    add_velocity : (x_vel : FloatValue F) (y_vel : FloatValue F) → EventAst F
    disable_movement : DisableMovement → EventAst F
    disable_movement2 : DisableMovement → EventAst F
    reset_vertical_velocity_and_acceleration : Bool → EventAst F
    normalize_physics : EventAst F
    sound_effect1 : ℕ → EventAst F
    sound_effect2 : ℕ → EventAst F
    sound_effect_transient : ℕ → EventAst F
    sound_effect_stop : ℕ → EventAst F
    sound_effect_victory : ℕ → EventAst F
    sound_effect_unk : ℕ → EventAst F
    sound_effect_other1 : ℕ → EventAst F
    sound_effect_other2 : ℕ → EventAst F
    sound_voice_low : EventAst F
    sound_voice_damage : EventAst F
    sound_voice_ottotto : EventAst F
    sound_voice_eating : EventAst F
    int_variable_set : (value : ℕ) (variable : VariableAst) → EventAst F
    int_variable_add : (value : ℕ) (variable : VariableAst) → EventAst F
    int_variable_subtract : (value : ℕ) (variable : VariableAst) → EventAst F
    int_variable_increment : (variable : VariableAst) → EventAst F
    int_variable_decrement : (variable : VariableAst) → EventAst F
    float_variable_set : (value : FloatValue F) (variable : VariableAst) → EventAst F
    float_variable_add : (value : FloatValue F) (variable : VariableAst) → EventAst F
    float_variable_subtract : (value : FloatValue F) (variable : VariableAst) → EventAst F
    float_variable_multiply : (value : FloatValue F) (variable : VariableAst) → EventAst F
    float_variable_divide : (value : FloatValue F) (variable : VariableAst) → EventAst F
    bool_variable_set_true : (variable : VariableAst) → EventAst F
    bool_variable_set_false : (variable : VariableAst) → EventAst F
    model_changer : (reference : ℕ) (switch_index : ℕ) (bone_group_index : ℕ) → EventAst F
    graphic_effect : GraphicEffect F → EventAst F
    external_graphic_effect : ExternalGraphicEffect F → EventAst F
    limited_screen_tint : LimitedScreenTint → EventAst F
    unlimited_screen_tint : UnlimitedScreenTint → EventAst F
    end_unlimited_screen_tint : (tint_id : ℕ) (transition_out_time : ℕ) → EventAst F
    sword_glow : SwordGlow F → EventAst F
    delete_sword_glow : (fade_time : ℕ) → EventAst F
    aesthetic_wind_effect : AestheticWindEffect F → EventAst F
    end_aesthetic_wind_effect : (unk : ℕ) → EventAst F
    screen_shake : (magnitude : ℕ) → EventAst F
    camera_closeup : CameraCloseup F → EventAst F
    camera_normal : EventAst F
    remove_flash_effect : EventAst F
    flash_effect_overlay : (red : ℕ) (green : ℕ) (blue : ℕ) (alpha : ℕ) → EventAst F
    set_color_of_flash_effect_overlay :
        (transition_time : ℕ) (red : ℕ) (green : ℕ) (blue : ℕ) (alpha : ℕ) → EventAst F
    flash_effect_light :
        (red : ℕ) (green : ℕ) (blue : ℕ) (alpha : ℕ) (light_source_x : F) (light_source_y : F)
        → EventAst F
    set_color_of_flash_effect_light :
        (transition_time : ℕ) (red : ℕ) (green : ℕ) (blue : ℕ) (alpha : ℕ) → EventAst F
    item_pickup : (unk1 : ℕ) (unk2 : Option ℕ) (unk3 : Option ℕ) (unk4 : Option ℕ) → EventAst F
    item_throw :
        (unk1 : VariableAst) (unk2 : VariableAst) (unk3 : VariableAst) (unk4 : Option VariableAst)
        (unk5 : Option VariableAst)
        → EventAst F
    item_throw2 : (unk1 : F) (unk2 : F) (unk3 : VariableAst) → EventAst F
    item_drop : EventAst F
    item_consume : (unk : ℕ) → EventAst F
    item_set_property : (unk1 : ℕ) (unk2 : F) → EventAst F
    fire_weapon : EventAst F
    fire_projectile : EventAst F
    item1f : (unk : ℕ) → EventAst F
    item_create : (unk : ℕ) → EventAst F
    item_visibility : Bool → EventAst F
    item_delete : EventAst F
    beam_sword_trail : (unk : ℕ) → EventAst F
    unknown : Event F → EventAst F

  pub data Block (F : Type 0) : Type 0 where
    empty : Block F
    cons : EventAst F → Block F → Block F

  pub data ElseBranch (F : Type 0) : Type 0 where
    no_else : ElseBranch F
    else_block : Block F → ElseBranch F

-- `event_asts.push(event_ast)`
unfoldable pub push : {F : Type 0} → Block F → EventAst F → Block F
push Block.empty e = Block.cons e Block.empty
push (Block.cons x xs) e = Block.cons x (push xs e)

pub data ProcessedBlock (F : Type 0) : Type 0 where
  finished : Block F → ProcessedBlock F
  end_for_loop : Block F → ProcessedBlock F
  end_if : (then_branch : Block F) → ProcessedBlock F
  end_if_and_else : (then_branch : Block F) (else_branch : ElseBranch F) → ProcessedBlock F

pub record ScriptAst (F : Type 0) : Type 0 where
  pub block : Block F
  pub offset : ℕ
