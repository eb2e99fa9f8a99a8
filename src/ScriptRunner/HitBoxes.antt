-- ===== src/ScriptRunner/HitBoxes.antt =====
-- The hitboxes and grab boxes of a `ScriptRunner` in src/script_runner.rs: the seven slots, the sets that
-- may hit again, and the arms of `step_event` that change them.
use brawllib_rs.Prelude.{
  ℕ, ◌%◌, ◌^◌, Bool, true, false, Option, none, some, List, [], ◌∷◌, length, set, ltb, ◌==◌,
  if◌then◌else◌,
}
use brawllib_rs.Outcome.{Outcome, ok, ◌>>=◌, index}
use brawllib_rs.ScriptAst.HitBoxes.{MoveHitBox, GrabBoxArguments}
use brawllib_rs.ScriptAst.Tree.{EventAst}
use brawllib_rs.ScriptRunner.Numbers.{Floats, lt_i32}
use brawllib_rs.ScriptRunner.Vectors.{put}
use brawllib_rs.ScriptRunner.Variables.{Variables, get_float_value}
use brawllib_rs.ScriptRunner.CollisionBox.{
  HitBoxValues, hit, grab, ScriptCollisionBox, from_hitbox, from_special_hitbox, from_grabbox,
  is_hit, is_grab,
}

pub record Boxes (F : Type 0) : Type 0 where
  pub hitboxes : List (Option (ScriptCollisionBox F))
  pub hitbox_sets_rehit : List Bool

module _ {F : Type 0} where
  -- A hitbox, not a grab box, of this set.
  unfoldable pub is_of_set : ℕ → Option (ScriptCollisionBox F) → Bool
  is_of_set set_id none = false
  is_of_set set_id (some box) = elim box.values [
    | hit values ↦ set_id == values.set_id
    | grab _ ↦ false
  ]

  -- `!empty_set`
  unfoldable pub any_of_set : ℕ → List (Option (ScriptCollisionBox F)) → Bool
  unfolding is_of_set
  any_of_set set_id [] = false
  any_of_set set_id (slot ∷ slots) = if is_of_set set_id slot then true else any_of_set set_id slots

  -- `CreateHitBox` and `CreateSpecialHitBox`, but for the arguments that the box is made from.
  unfoldable pub create_box :
      (hitbox_id set_id : ℕ)
      → Outcome F
      → ((interpolate : Bool) (damage : F) → ScriptCollisionBox F)
      → Boxes F
      → Outcome (Boxes F)
  unfolding is_of_set any_of_set
  create_box hitbox_id set_id damage make s =
      if ltb hitbox_id (length s.hitboxes)
      then (do
        previous ← index s.hitboxes hitbox_id
        let rehit =
              if any_of_set set_id s.hitboxes
              then s.hitbox_sets_rehit
              else put s.hitbox_sets_rehit set_id true in
            (damage >>= λ d. ok (record {
              hitboxes = set s.hitboxes hitbox_id (some (make (is_of_set set_id previous) d));
              hitbox_sets_rehit = rehit;
            })))
      else ok s

  -- `if let Some(ref mut hitbox) = self.hitboxes[hitbox_id as usize] { .. }`
  unfoldable pub change_box :
      ℕ → (ScriptCollisionBox F → ScriptCollisionBox F) → Boxes F → Outcome (Boxes F)
  change_box hitbox_id f s = do
    slot ← index s.hitboxes hitbox_id
    elim slot [
      | none ↦ ok s
      | some box ↦ ok (record s { hitboxes = set s.hitboxes hitbox_id (some (f box)) })
    ]

  -- `if let CollisionBoxValues::Hit (ref mut hitbox) = hitbox.values { .. }`
  unfoldable pub change_hit :
      (HitBoxValues F → HitBoxValues F) → ScriptCollisionBox F → ScriptCollisionBox F
  change_hit f box = elim box.values [
    | hit values ↦ record box { values = hit (f values) }
    | grab _ ↦ box
  ]

  unfoldable pub move_box : MoveHitBox F → ScriptCollisionBox F → ScriptCollisionBox F
  move_box args box = record box {
    bone_index = args.new_bone % 2 ^ 16;
    x_offset = args.new_x_offset;
    y_offset = args.new_y_offset;
    z_offset = args.new_z_offset;
  }

  -- A slot that is emptied if its box is one of those that are asked for.
  unfoldable pub cleared :
      (ScriptCollisionBox F → Bool) → Option (ScriptCollisionBox F) → Option (ScriptCollisionBox F)
  cleared is none = none
  cleared is (some box) = if is box then none else some box

  -- `DeleteHitBox` and `DeleteGrabBox`
  unfoldable pub delete_box : (ScriptCollisionBox F → Bool) → ℕ → Boxes F → Outcome (Boxes F)
  unfolding cleared
  delete_box is hitbox_id s = do
    slot ← index s.hitboxes hitbox_id
    ok (record s { hitboxes = set s.hitboxes hitbox_id (cleared is slot) })

  -- `DeleteAllHitBoxes` and `DeleteAllGrabBoxes`
  unfoldable pub delete_all :
      (ScriptCollisionBox F → Bool)
      → List (Option (ScriptCollisionBox F))
      → List (Option (ScriptCollisionBox F))
  unfolding cleared
  delete_all is [] = []
  delete_all is (slot ∷ slots) = cleared is slot ∷ delete_all is slots

  unfoldable pub holds_grab : Option (ScriptCollisionBox F) → Bool
  holds_grab none = false
  holds_grab (some box) = is_grab box

  -- `CreateGrabBox`: the slot is read before the bound is tested.
  unfoldable pub create_grab : GrabBoxArguments F → Boxes F → Outcome (Boxes F)
  create_grab args s = do
    previous ← index s.hitboxes args.hitbox_id
    if lt_i32 args.hitbox_id (length s.hitboxes)
        then ok (record s {
          hitboxes = set s.hitboxes args.hitbox_id (some (from_grabbox args (holds_grab previous)));
        })
        else ok s

module _ {F : Type 0} (fl : Floats F) (s : Variables F) where
  -- The arms of `step_event` for hitboxes and grab boxes.
  unfoldable pub step_boxes : EventAst F → Boxes F → Outcome (Boxes F)
  unfolding create_box change_box change_hit move_box delete_box create_grab
  step_boxes (EventAst.create_hit_box args) boxes =
      create_box args.hitbox_id args.set_id (get_float_value fl s args.damage) (from_hitbox args)
        boxes
  step_boxes (EventAst.create_special_hit_box args) boxes =
      create_box args.hitbox_args.hitbox_id args.hitbox_args.set_id
        (get_float_value fl s args.hitbox_args.damage) (from_special_hitbox args) boxes
  step_boxes EventAst.delete_all_hit_boxes boxes =
      ok (record boxes { hitboxes = delete_all is_hit boxes.hitboxes })
  step_boxes (EventAst.move_hit_box args) boxes = change_box args.hitbox_id (move_box args) boxes
  step_boxes (EventAst.change_hit_box_damage hitbox_id new_damage) boxes =
      change_box hitbox_id (change_hit λ values. record values { damage = fl.of_i32 new_damage })
        boxes
  step_boxes (EventAst.change_hit_box_size hitbox_id new_size) boxes =
      change_box hitbox_id (change_hit λ values. record values { size = fl.of_i32 new_size }) boxes
  step_boxes (EventAst.delete_hit_box hitbox_id) boxes = delete_box is_hit hitbox_id boxes
  step_boxes (EventAst.create_grab_box args) boxes = create_grab args boxes
  step_boxes (EventAst.delete_grab_box hitbox_id) boxes = delete_box is_grab hitbox_id boxes
  step_boxes EventAst.delete_all_grab_boxes boxes =
      ok (record boxes { hitboxes = delete_all is_grab boxes.hitboxes })
  step_boxes (EventAst.add_hit_box_damage hitbox_id add_damage) boxes =
      get_float_value fl s add_damage >>= λ d.
      change_box hitbox_id (change_hit λ values. record values { damage = fl.add values.damage d })
        boxes
  step_boxes _ boxes = ok boxes
