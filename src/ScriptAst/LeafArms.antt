-- ===== src/ScriptAst/LeafArms.antt =====
-- Every arm of src/script_ast/mod.rs that neither begins nor ends a block makes one event.
use brawllib_rs.Prelude.{◌≡◌, refl, Option, none, some, ◌∷◌, arith}
use brawllib_rs.Script.Argument.{Argument}
use brawllib_rs.ScriptAst.Options.{◌>>=◌}
use brawllib_rs.ScriptAst.Shapes.{Arguments}
use brawllib_rs.ScriptAst.Expression.{Expression}
use brawllib_rs.ScriptAst.Tree.{EventAst}
use brawllib_rs.ScriptAst.Leaves.{count_event, IsLeaf}
use brawllib_rs.ScriptAst.ControlArms.{
  async_wait, case, change_subaction, frame_speed_modifier, create_interrupt,
  create_plain_interrupt, interrupt_add_requirement, test,
}
use brawllib_rs.ScriptAst.StateArms.{controller_unk, generate_article, set_velocity, add_velocity}
use brawllib_rs.ScriptAst.GraphicArms.{
  graphic_effect, random_external_effect, external_effect, screen_tint, sword_glow,
}
use brawllib_rs.ScriptAst.OtherArms.{
  aesthetic_wind_effect, camera_closeup, flash_effect_overlay, color_of_overlay, flash_effect_light,
  color_of_light, item_pickup, item_throw, item_throw_short,
}
use brawllib_rs.ScriptAst.CollisionArms.{
  defensive_collision, move_hit_box, specify_throw, apply_throw,
}

pub none-IsLeaf : (F : Type 0) → IsLeaf {F = F} none
none-IsLeaf F = tt

pub test-IsLeaf :
    {F : Type 0} (e : Expression F → EventAst F) (t : Option (Expression F))
    → ((v : Expression F) → count_event (e v) ≡ 1)
    → IsLeaf (t >>= λ v. some (e v))
test-IsLeaf e none h = tt
test-IsLeaf e (some v) h = h v

module _ {F : Type 0} where
  pub async_wait-IsLeaf : (args : Arguments F) → IsLeaf (async_wait args)
  unfolding async_wait count_event
  async_wait-IsLeaf args = ground arith

  pub case-IsLeaf : (args : Arguments F) → IsLeaf (case args)
  unfolding case count_event
  case-IsLeaf args = ground arith

  pub change_subaction-IsLeaf : (args : Arguments F) → IsLeaf (change_subaction args)
  unfolding change_subaction count_event
  change_subaction-IsLeaf args = ground arith

  pub frame_speed_modifier-IsLeaf : (args : Arguments F) → IsLeaf (frame_speed_modifier args)
  unfolding frame_speed_modifier count_event
  frame_speed_modifier-IsLeaf args = ground arith

  pub controller_unk-IsLeaf : (args : Arguments F) → IsLeaf (controller_unk args)
  unfolding controller_unk count_event
  controller_unk-IsLeaf args = ground arith

  pub generate_article-IsLeaf : (args : Arguments F) → IsLeaf (generate_article args)
  unfolding generate_article count_event
  generate_article-IsLeaf args = ground arith

  pub set_velocity-IsLeaf : (args : Arguments F) → IsLeaf (set_velocity args)
  unfolding set_velocity count_event
  set_velocity-IsLeaf args = ground arith

  pub add_velocity-IsLeaf : (args : Arguments F) → IsLeaf (add_velocity args)
  unfolding add_velocity count_event
  add_velocity-IsLeaf args = ground arith

  pub graphic_effect-IsLeaf : (args : Arguments F) → IsLeaf (graphic_effect args)
  unfolding graphic_effect count_event
  graphic_effect-IsLeaf args = ground arith

  pub random_external_effect-IsLeaf : (args : Arguments F) → IsLeaf (random_external_effect args)
  unfolding random_external_effect count_event
  random_external_effect-IsLeaf args = ground arith

  pub external_effect-IsLeaf : (args : Arguments F) → IsLeaf (external_effect args)
  unfolding external_effect count_event
  external_effect-IsLeaf args = ground arith

  pub screen_tint-IsLeaf : (args : Arguments F) → IsLeaf (screen_tint args)
  unfolding screen_tint count_event
  screen_tint-IsLeaf args = ground arith

  pub sword_glow-IsLeaf : (args : Arguments F) → IsLeaf (sword_glow args)
  unfolding sword_glow count_event
  sword_glow-IsLeaf args = ground arith

  pub aesthetic_wind_effect-IsLeaf : (args : Arguments F) → IsLeaf (aesthetic_wind_effect args)
  unfolding aesthetic_wind_effect count_event
  aesthetic_wind_effect-IsLeaf args = ground arith

  pub camera_closeup-IsLeaf : (args : Arguments F) → IsLeaf (camera_closeup args)
  unfolding camera_closeup count_event
  camera_closeup-IsLeaf args = ground arith

  pub flash_effect_overlay-IsLeaf : (args : Arguments F) → IsLeaf (flash_effect_overlay args)
  unfolding flash_effect_overlay count_event
  flash_effect_overlay-IsLeaf args = ground arith

  pub color_of_overlay-IsLeaf : (args : Arguments F) → IsLeaf (color_of_overlay args)
  unfolding color_of_overlay count_event
  color_of_overlay-IsLeaf args = ground arith

  pub flash_effect_light-IsLeaf : (args : Arguments F) → IsLeaf (flash_effect_light args)
  unfolding flash_effect_light count_event
  flash_effect_light-IsLeaf args = ground arith

  pub color_of_light-IsLeaf : (args : Arguments F) → IsLeaf (color_of_light args)
  unfolding color_of_light count_event
  color_of_light-IsLeaf args = ground arith

  pub item_pickup-IsLeaf : (args : Arguments F) → IsLeaf (item_pickup args)
  unfolding item_pickup count_event
  item_pickup-IsLeaf args = ground arith

  pub item_throw-IsLeaf : (args : Arguments F) → IsLeaf (item_throw args)
  unfolding item_throw count_event
  item_throw-IsLeaf args = ground arith

  pub item_throw_short-IsLeaf : (args : Arguments F) → IsLeaf (item_throw_short args)
  unfolding item_throw_short count_event
  item_throw_short-IsLeaf args = ground arith

  pub defensive_collision-IsLeaf : (args : Arguments F) → IsLeaf (defensive_collision args)
  unfolding defensive_collision count_event
  defensive_collision-IsLeaf args = ground arith

  pub move_hit_box-IsLeaf : (args : Arguments F) → IsLeaf (move_hit_box args)
  unfolding move_hit_box count_event
  move_hit_box-IsLeaf args = ground arith

  pub specify_throw-IsLeaf : (args : Arguments F) → IsLeaf (specify_throw args)
  unfolding specify_throw count_event
  specify_throw-IsLeaf args = ground arith

  pub apply_throw-IsLeaf : (args : Arguments F) → IsLeaf (apply_throw args)
  unfolding apply_throw count_event
  apply_throw-IsLeaf args = ground arith

  pub create_interrupt-IsLeaf : (args : Arguments F) → IsLeaf (create_interrupt args)
  unfolding create_interrupt count_event
  create_interrupt-IsLeaf (Argument.value v0 ∷ Argument.value v1 ∷ args) =
      test-IsLeaf _ (test args) (λ t. refl)
  create_interrupt-IsLeaf _ = tt

  pub create_plain_interrupt-IsLeaf : (args : Arguments F) → IsLeaf (create_plain_interrupt args)
  unfolding create_plain_interrupt count_event
  create_plain_interrupt-IsLeaf (Argument.value v0 ∷ args) = test-IsLeaf _ (test args) (λ t. refl)
  create_plain_interrupt-IsLeaf _ = tt

  pub interrupt_add_requirement-IsLeaf :
      (args : Arguments F) → IsLeaf (interrupt_add_requirement args)
  unfolding interrupt_add_requirement count_event
  interrupt_add_requirement-IsLeaf (Argument.value v0 ∷ Argument.value v1 ∷ args) =
      test-IsLeaf _ (test args) (λ t. refl)
  interrupt_add_requirement-IsLeaf _ = tt
