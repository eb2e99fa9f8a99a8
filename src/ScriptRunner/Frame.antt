-- ===== src/ScriptRunner/Frame.antt =====
-- The collision boxes of src/script_runner.rs over the frames of a subaction: those of `new`, the resets
-- that begin a frame in `step_script`, and the states that events lead to.
use brawllib_rs.Prelude.{
  ℕ, suc, ◌≡◌, refl, ◌∙◌, ap, Bool, true, false, Option, none, some, List, [], ◌∷◌, length,
}
use brawllib_rs.Outcome.{ok, Post, Post-ok}
use brawllib_rs.ScriptAst.Tree.{EventAst}
use brawllib_rs.ScriptRunner.Numbers.{Floats}
use brawllib_rs.ScriptRunner.Variables.{Variables}
use brawllib_rs.ScriptRunner.CollisionBox.{ScriptCollisionBox}
use brawllib_rs.ScriptRunner.HitBoxes.{Boxes, step_boxes}
use brawllib_rs.ScriptRunner.Placed.{IsPlaced}
use brawllib_rs.ScriptRunner.BoxLaws.{IsBoxes, step_boxes-IsBoxes}

-- The slots and the sets that `new` makes.
unfoldable pub no_boxes : {F : Type 0} → Boxes F
no_boxes = record {
  hitboxes = none ∷ none ∷ none ∷ none ∷ none ∷ none ∷ none ∷ [];
  hitbox_sets_rehit =
      false ∷ false ∷ false ∷ false ∷ false ∷ false ∷ false ∷ false ∷ false ∷ false ∷ [];
}

-- `for hitbox in &mut self.hitboxes { .. hitbox.interpolate = true; .. }`
unfoldable pub interpolated :
    {F : Type 0} → List (Option (ScriptCollisionBox F)) → List (Option (ScriptCollisionBox F))
interpolated [] = []
interpolated (none ∷ slots) = none ∷ interpolated slots
interpolated (some box ∷ slots) = some (record box { interpolate = true }) ∷ interpolated slots

-- `for rehit in self.hitbox_sets_rehit.iter_mut() { *rehit = false; }`
unfoldable pub forgotten : List Bool → List Bool
forgotten [] = []
forgotten (rehit ∷ sets) = false ∷ forgotten sets

-- The resets of a frame.
unfoldable pub begin_frame : {F : Type 0} → Boxes F → Boxes F
begin_frame s = record {
  hitboxes = interpolated s.hitboxes;
  hitbox_sets_rehit = forgotten s.hitbox_sets_rehit;
}

-- The boxes that are reached by frames and by the events in them, whatever the variables hold.
pub data IsReached {F : Type 0} (fl : Floats F) : Boxes F → Type 0 where
  new : IsReached fl no_boxes
  frame : {boxes : Boxes F} → IsReached fl boxes → IsReached fl (begin_frame boxes)
  event :
      {boxes next : Boxes F} (s : Variables F) (e : EventAst F)
      → step_boxes fl s e boxes ≡ ok next
      → IsReached fl boxes
      → IsReached fl next

module _ {F : Type 0} where
  interpolated-IsPlaced :
      (n : ℕ) (slots : List (Option (ScriptCollisionBox F)))
      → IsPlaced n slots
      → IsPlaced n (interpolated slots)
  unfolding interpolated
  interpolated-IsPlaced n [] h = tt
  interpolated-IsPlaced n (none ∷ slots) h = (tt, interpolated-IsPlaced (suc n) slots h.1)
  interpolated-IsPlaced n (some box ∷ slots) h = (h.0, interpolated-IsPlaced (suc n) slots h.1)

  length-interpolated :
      (slots : List (Option (ScriptCollisionBox F))) → length (interpolated slots) ≡ length slots
  unfolding interpolated
  length-interpolated [] = refl
  length-interpolated (none ∷ slots) = ap suc (length-interpolated slots)
  length-interpolated (some box ∷ slots) = ap suc (length-interpolated slots)

length-forgotten : (sets : List Bool) → length (forgotten sets) ≡ length sets
unfolding forgotten
length-forgotten [] = refl
length-forgotten (rehit ∷ sets) = ap suc (length-forgotten sets)

module _ {F : Type 0} (fl : Floats F) where
  pub begin_frame-IsBoxes : (boxes : Boxes F) → IsBoxes boxes → IsBoxes (begin_frame boxes)
  unfolding begin_frame
  begin_frame-IsBoxes boxes h = record {
    slots = length-interpolated boxes.hitboxes ∙ h.slots;
    sets = length-forgotten boxes.hitbox_sets_rehit ∙ h.sets;
    placed = interpolated-IsPlaced 0 boxes.hitboxes h.placed;
  }

  pub no_boxes-IsBoxes : IsBoxes {F = F} no_boxes
  unfolding no_boxes
  no_boxes-IsBoxes = record {
    slots = refl;
    sets = refl;
    placed = (tt, (tt, (tt, (tt, (tt, (tt, (tt, tt)))))));
  }

  -- Whatever frames and events have been run from a new runner, there are seven slots and ten sets, and
  -- every box is in the slot of its id.
  pub IsReached-IsBoxes : {boxes : Boxes F} → IsReached fl boxes → IsBoxes boxes
  IsReached-IsBoxes new = no_boxes-IsBoxes
  IsReached-IsBoxes (frame h) = begin_frame-IsBoxes _ (IsReached-IsBoxes h)
  IsReached-IsBoxes (event {boxes} s e same h) =
      let post : Post IsBoxes (step_boxes fl s e boxes) =
        step_boxes-IsBoxes fl s e boxes (IsReached-IsBoxes h) in
      Post-ok (rw same at post)
