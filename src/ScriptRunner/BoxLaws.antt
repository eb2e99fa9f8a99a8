-- ===== src/ScriptRunner/BoxLaws.antt =====
-- The events of src/script_runner.rs on collision boxes keep the slots: a box lies in the slot of its
-- id.
use brawllib_rs.Prelude.{
  ℕ, ◌%◌, ◌^◌, ◌≡◌, refl, ◌∙◌, inl, inr, Bool, true, Option, none, some, length, set, length-set,
  ltb, Bool-cases, if◌then◌else◌, arith,
}
use brawllib_rs.Outcome.{Outcome, ok, index, Post, Post-bind, Post-then, Post-if, returns}
use brawllib_rs.ScriptAst.HitBoxes.{GrabBoxArguments}
use brawllib_rs.ScriptAst.Tree.{EventAst}
use brawllib_rs.ScriptRunner.Numbers.{Floats, lt_i32}
use brawllib_rs.ScriptRunner.Vectors.{put, length-put}
use brawllib_rs.ScriptRunner.Variables.{Variables, get_float_value}
use brawllib_rs.ScriptRunner.CollisionBox.{
  ScriptCollisionBox, from_hitbox, from_special_hitbox, from_grabbox, is_hit, is_grab,
}
use brawllib_rs.ScriptRunner.HitBoxes.{
  Boxes, is_of_set, any_of_set, create_box, change_box, change_hit, move_box, cleared, delete_box,
  delete_all, create_grab, step_boxes,
}
use brawllib_rs.ScriptRunner.Placed.{
  IsPlaced, IsOwn, IsPlaced-set_slot, index-IsOwn, cleared-IsOwn, change_hit-id,
  delete_all-IsPlaced, length-delete_all,
}

-- Seven slots, ten sets, and every box in the slot of its id.
pub record IsBoxes {F : Type 0} (s : Boxes F) : Type 0 where
  pub slots : length s.hitboxes ≡ 7
  pub sets : length s.hitbox_sets_rehit ≡ 10
  pub placed : IsPlaced 0 s.hitboxes

module _ {F : Type 0} where
  module _ (s : Boxes F) (h : IsBoxes s) where
    -- A write to one slot, and one that empties slots.
    set-IsBoxes :
        (i : ℕ) (slot : Option (ScriptCollisionBox F))
        → IsOwn i slot
        → IsBoxes (record s { hitboxes = set s.hitboxes i slot })
    set-IsBoxes i slot own = record {
      slots = length-set s.hitboxes i slot ∙ h.slots;
      sets = h.sets;
      placed = IsPlaced-set_slot s.hitboxes i slot h.placed own;
    }

    delete_all-IsBoxes :
        (is : ScriptCollisionBox F → Bool)
        → IsBoxes (record s { hitboxes = delete_all is s.hitboxes })
    delete_all-IsBoxes is = record {
      slots = length-delete_all is s.hitboxes ∙ h.slots;
      sets = h.sets;
      placed = delete_all-IsPlaced is 0 s.hitboxes h.placed;
    }

    module _ (hitbox_id : ℕ) (f : ScriptCollisionBox F → ScriptCollisionBox F)
        (keeps : (box : ScriptCollisionBox F) → (f box).hitbox_id ≡ box.hitbox_id) where
      changed-IsBoxes :
          (slot : Option (ScriptCollisionBox F))
          → IsOwn hitbox_id slot
          → Post IsBoxes (elim slot [
            | none ↦ ok s
            | some box ↦ ok (record s { hitboxes = set s.hitboxes hitbox_id (some (f box)) })
          ])
      changed-IsBoxes none own = returns h
      changed-IsBoxes (some box) own =
          returns (set-IsBoxes hitbox_id (some (f box)) (keeps box ∙ own))

      change_box-IsBoxes : Post IsBoxes (change_box hitbox_id f s)
      unfolding change_box
      change_box-IsBoxes =
          Post-bind (index-IsOwn s.hitboxes hitbox_id h.placed)
            λ slot read. changed-IsBoxes slot read.1

    delete_box-IsBoxes :
        (is : ScriptCollisionBox F → Bool) (hitbox_id : ℕ)
        → Post IsBoxes (delete_box is hitbox_id s)
    unfolding delete_box
    delete_box-IsBoxes is hitbox_id =
        Post-bind (index-IsOwn s.hitboxes hitbox_id h.placed) λ slot read.
          returns (set-IsBoxes hitbox_id (cleared is slot) (cleared-IsOwn is hitbox_id slot read.1))

    rehit-length :
        (set_id : ℕ)
        → length (
            if any_of_set set_id s.hitboxes
            then s.hitbox_sets_rehit
            else put s.hitbox_sets_rehit set_id true)
          ≡ 10
    rehit-length set_id = elim (Bool-cases (any_of_set set_id s.hitboxes)) [
      | inl e ↦ rw e h.sets
      | inr e ↦ rw e (length-put s.hitbox_sets_rehit set_id true ∙ h.sets)
    ]

    create_box-IsBoxes :
        (hitbox_id set_id : ℕ) (damage : Outcome F) (make : Bool → F → ScriptCollisionBox F)
        → ((b : Bool) (d : F) → (make b d).hitbox_id ≡ hitbox_id)
        → Post IsBoxes (create_box hitbox_id set_id damage make s)
    unfolding create_box
    create_box-IsBoxes hitbox_id set_id damage make own =
        Post-if (ltb hitbox_id (length s.hitboxes))
          (Post-then (index s.hitboxes hitbox_id) λ previous. Post-then damage λ d.
            returns (record {
              slots = length-set s.hitboxes hitbox_id _ ∙ h.slots;
              sets = rehit-length set_id;
              placed =
                  IsPlaced-set_slot s.hitboxes hitbox_id _ h.placed
                    (own (is_of_set set_id previous) d);
            }))
          (returns h)

    create_grab-IsBoxes : (args : GrabBoxArguments F) → Post IsBoxes (create_grab args s)
    unfolding create_grab from_grabbox
    create_grab-IsBoxes args =
        Post-bind (index-IsOwn s.hitboxes args.hitbox_id h.placed) λ slot read.
          let own : args.hitbox_id % 2 ^ 8 ≡ args.hitbox_id = omega (arith, read.0, h.slots) in
          Post-if (lt_i32 args.hitbox_id (length s.hitboxes))
            (returns (set-IsBoxes args.hitbox_id _ own)) (returns h)

module _ {F : Type 0} (fl : Floats F) (s : Variables F) where
  -- Every event keeps the slots: seven of them, every box in the slot of its id, and ten sets.
  pub step_boxes-IsBoxes :
      (e : EventAst F) (boxes : Boxes F) → IsBoxes boxes → Post IsBoxes (step_boxes fl s e boxes)
  unfolding step_boxes from_hitbox from_special_hitbox move_box
  step_boxes-IsBoxes (EventAst.create_hit_box args) boxes h =
      create_box-IsBoxes boxes h args.hitbox_id args.set_id (get_float_value fl s args.damage)
        (from_hitbox args) λ b d. refl
  step_boxes-IsBoxes (EventAst.create_special_hit_box args) boxes h =
      create_box-IsBoxes boxes h args.hitbox_args.hitbox_id args.hitbox_args.set_id
        (get_float_value fl s args.hitbox_args.damage) (from_special_hitbox args) λ b d. refl
  step_boxes-IsBoxes EventAst.delete_all_hit_boxes boxes h =
      returns (delete_all-IsBoxes boxes h is_hit)
  step_boxes-IsBoxes (EventAst.move_hit_box args) boxes h =
      change_box-IsBoxes boxes h args.hitbox_id (move_box args) λ box. refl
  step_boxes-IsBoxes (EventAst.change_hit_box_damage hitbox_id new_damage) boxes h =
      change_box-IsBoxes boxes h hitbox_id
        (change_hit λ values. record values { damage = fl.of_i32 new_damage })
        (change_hit-id λ values. record values { damage = fl.of_i32 new_damage })
  step_boxes-IsBoxes (EventAst.change_hit_box_size hitbox_id new_size) boxes h =
      change_box-IsBoxes boxes h hitbox_id
        (change_hit λ values. record values { size = fl.of_i32 new_size })
        (change_hit-id λ values. record values { size = fl.of_i32 new_size })
  step_boxes-IsBoxes (EventAst.delete_hit_box hitbox_id) boxes h =
      delete_box-IsBoxes boxes h is_hit hitbox_id
  step_boxes-IsBoxes (EventAst.create_grab_box args) boxes h = create_grab-IsBoxes boxes h args
  step_boxes-IsBoxes (EventAst.delete_grab_box hitbox_id) boxes h =
      delete_box-IsBoxes boxes h is_grab hitbox_id
  step_boxes-IsBoxes EventAst.delete_all_grab_boxes boxes h =
      returns (delete_all-IsBoxes boxes h is_grab)
  step_boxes-IsBoxes (EventAst.add_hit_box_damage hitbox_id add_damage) boxes h =
      Post-then (get_float_value fl s add_damage) λ d.
        change_box-IsBoxes boxes h hitbox_id
          (change_hit λ values. record values { damage = fl.add values.damage d })
          (change_hit-id λ values. record values { damage = fl.add values.damage d })
  step_boxes-IsBoxes _ boxes h = returns h
