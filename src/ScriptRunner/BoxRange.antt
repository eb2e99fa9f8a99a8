-- ===== src/ScriptRunner/BoxRange.antt =====
-- Which events of src/script_runner.rs panic on the slots of its collision boxes: those that index a
-- slot without a guard.
use brawllib_rs.Prelude.{
  ℕ, zero, suc, ◌<◌, ◌≡◌, refl, ◌⊎◌, inl, inr, Bool, true, false, Option, none, some, List, [], ◌∷◌,
  length, set, ltb, ltb→lt, if◌then◌else◌, arith,
}
use brawllib_rs.Outcome.{Outcome, ok, panic, ◌>>=◌, index, Post, Post-ok}
use brawllib_rs.ScriptAst.HitBoxes.{FloatValue, GrabBoxArguments}
use brawllib_rs.ScriptAst.Tree.{EventAst}
use brawllib_rs.ScriptRunner.Numbers.{Floats, lt_i32}
use brawllib_rs.ScriptRunner.Variables.{Variables, get_float_value}
use brawllib_rs.ScriptRunner.Store.{get_variable_lem}
use brawllib_rs.ScriptRunner.CollisionBox.{
  ScriptCollisionBox, from_hitbox, from_special_hitbox, is_hit, is_grab,
}
use brawllib_rs.ScriptRunner.HitBoxes.{
  Boxes, create_box, change_box, change_hit, move_box, delete_box, create_grab, step_boxes,
}
use brawllib_rs.ScriptRunner.BoxLaws.{IsBoxes, step_boxes-IsBoxes}

-- The slot that an event indexes, if it has one, is one of the seven.
abbrev pub IsInside : {F : Type 0} → EventAst F → Type 0
IsInside (EventAst.move_hit_box args) = args.hitbox_id < 7
IsInside (EventAst.change_hit_box_damage hitbox_id new_damage) = hitbox_id < 7
IsInside (EventAst.change_hit_box_size hitbox_id new_size) = hitbox_id < 7
IsInside (EventAst.delete_hit_box hitbox_id) = hitbox_id < 7
IsInside (EventAst.create_grab_box args) = args.hitbox_id < 7
IsInside (EventAst.delete_grab_box hitbox_id) = hitbox_id < 7
IsInside (EventAst.add_hit_box_damage hitbox_id add_damage) = hitbox_id < 7
IsInside _ = Unit

abbrev pub Returns : {A : Type 0} → Outcome A → Type 0
Returns {A} m = (a : A) × (m ≡ ok a)

-- A computation returns if `P` holds and panics if not.
abbrev ReturnsIf : {A : Type 0} → Type 0 → Outcome A → Type 0
ReturnsIf P m = (P × Returns m) ⊎ ((P → ⊥) × (m ≡ panic))

module _ {A : Type 0} where
  index-ReturnsIf : (xs : List A) (i : ℕ) → ReturnsIf (i < length xs) (index xs i)
  unfolding index
  index-ReturnsIf [] i = inr (λ h. omega (arith, h), refl)
  index-ReturnsIf (x ∷ xs) zero = inl (omega arith, (x, refl))
  index-ReturnsIf (x ∷ xs) (suc i) = elim (index-ReturnsIf xs i) [
    | inl (h, r) ↦ inl (omega (arith, h), r)
    | inr (h, e) ↦ inr ((λ k. h (omega (arith, k))), e)
  ]

  -- A slot is read, and what follows returns.
  index_then-ReturnsIf :
      {B : Type 0} (xs : List A) (i : ℕ) (k : A → Outcome B)
      → ((x : A) → Returns (k x))
      → ReturnsIf (i < length xs) (index xs i >>= k)
  index_then-ReturnsIf xs i k go = elim (index-ReturnsIf xs i) [
    | inl (h, (x, e)) ↦ inl (h, rw e (go x))
    | inr (h, e) ↦ inr (h, rw e refl)
  ]

  then-Returns :
      {B : Type 0} {m : Outcome A} {k : A → Outcome B}
      → Returns m
      → ((x : A) → Returns (k x))
      → Returns (m >>= k)
  then-Returns (x, e) go = rw e (go x)

  if-Returns :
      (b : Bool) {x y : Outcome A}
      → (b ≡ true → Returns x)
      → Returns y
      → Returns (if b then x else y)
  if-Returns true h k = h refl
  if-Returns false h k = k

  read-Returns : (xs : List A) (i : ℕ) → ltb i (length xs) ≡ true → Returns (index xs i)
  read-Returns xs i h = elim (index-ReturnsIf xs i) [
    | inl (_, r) ↦ r
    | inr (outside, _) ↦ absurd (outside (ltb→lt _ _ h))
  ]

module _ {F : Type 0} (boxes : Boxes F) where
  changed-Returns :
      (hitbox_id : ℕ) (f : ScriptCollisionBox F → ScriptCollisionBox F)
      (slot : Option (ScriptCollisionBox F))
      → Returns {A = Boxes F} (elim slot [
        | none ↦ ok boxes
        | some box ↦ ok (record boxes { hitboxes = set boxes.hitboxes hitbox_id (some (f box)) })
      ])
  changed-Returns hitbox_id f none = (_, refl)
  changed-Returns hitbox_id f (some box) = (_, refl)

  change_box-ReturnsIf :
      (hitbox_id : ℕ) (f : ScriptCollisionBox F → ScriptCollisionBox F)
      → ReturnsIf (hitbox_id < length boxes.hitboxes) (change_box hitbox_id f boxes)
  unfolding change_box
  change_box-ReturnsIf hitbox_id f =
      index_then-ReturnsIf boxes.hitboxes hitbox_id _ (changed-Returns hitbox_id f)

  delete_box-ReturnsIf :
      (is : ScriptCollisionBox F → Bool) (hitbox_id : ℕ)
      → ReturnsIf (hitbox_id < length boxes.hitboxes) (delete_box is hitbox_id boxes)
  unfolding delete_box
  delete_box-ReturnsIf is hitbox_id =
      index_then-ReturnsIf boxes.hitboxes hitbox_id _ λ slot. (_, refl)

  create_grab-ReturnsIf :
      (args : GrabBoxArguments F)
      → ReturnsIf (args.hitbox_id < length boxes.hitboxes) (create_grab args boxes)
  unfolding create_grab
  create_grab-ReturnsIf args =
      index_then-ReturnsIf boxes.hitboxes args.hitbox_id _ λ slot.
        if-Returns (lt_i32 args.hitbox_id (length boxes.hitboxes)) (λ _. (_, refl)) (_, refl)

  create_box-Returns :
      (hitbox_id set_id : ℕ) (damage : Outcome F) (make : Bool → F → ScriptCollisionBox F)
      → Returns damage
      → Returns (create_box hitbox_id set_id damage make boxes)
  unfolding create_box
  create_box-Returns hitbox_id set_id damage make damaged =
      if-Returns (ltb hitbox_id (length boxes.hitboxes))
        (λ h.
          then-Returns (read-Returns boxes.hitboxes hitbox_id h)
            λ previous. then-Returns damaged λ d. (_, refl))
        (_, refl)

module _ {F : Type 0} (fl : Floats F) (s : Variables F) where
  get_float_value-Returns : (v : FloatValue F) → Returns (get_float_value fl s v)
  unfolding get_float_value
  get_float_value-Returns (FloatValue.constant x) = (x, refl)
  get_float_value-Returns (FloatValue.variable v) = (_, (get_variable_lem fl s v).1)

  module _ (boxes : Boxes F) (h : IsBoxes boxes) where
    -- The bound is the number of slots.
    seven :
        (i : ℕ) {m : Outcome (Boxes F)}
        → ReturnsIf (i < length boxes.hitboxes) m
        → ReturnsIf (i < 7) m
    seven i (inl (k, r)) = inl (omega (arith, k, h.slots), r)
    seven i (inr (k, e)) = inr ((λ lt. k (omega (arith, lt, h.slots))), e)

    step_boxes-ReturnsIf : (e : EventAst F) → ReturnsIf (IsInside e) (step_boxes fl s e boxes)
    unfolding step_boxes
    step_boxes-ReturnsIf (EventAst.create_hit_box args) = inl (
      tt,
      create_box-Returns boxes args.hitbox_id args.set_id (get_float_value fl s args.damage)
          (from_hitbox args) (get_float_value-Returns args.damage),
    )
    step_boxes-ReturnsIf (EventAst.create_special_hit_box args) = inl (
      tt,
      create_box-Returns boxes args.hitbox_args.hitbox_id args.hitbox_args.set_id
          (get_float_value fl s args.hitbox_args.damage) (from_special_hitbox args)
          (get_float_value-Returns args.hitbox_args.damage),
    )
    step_boxes-ReturnsIf EventAst.delete_all_hit_boxes = inl (tt, (_, refl))
    step_boxes-ReturnsIf (EventAst.move_hit_box args) =
        seven args.hitbox_id (change_box-ReturnsIf boxes args.hitbox_id (move_box args))
    step_boxes-ReturnsIf (EventAst.change_hit_box_damage hitbox_id new_damage) = seven hitbox_id (
        change_box-ReturnsIf boxes hitbox_id
          (change_hit λ values. record values { damage = fl.of_i32 new_damage }))
    step_boxes-ReturnsIf (EventAst.change_hit_box_size hitbox_id new_size) = seven hitbox_id (
        change_box-ReturnsIf boxes hitbox_id
          (change_hit λ values. record values { size = fl.of_i32 new_size }))
    step_boxes-ReturnsIf (EventAst.delete_hit_box hitbox_id) =
        seven hitbox_id (delete_box-ReturnsIf boxes is_hit hitbox_id)
    step_boxes-ReturnsIf (EventAst.create_grab_box args) =
        seven args.hitbox_id (create_grab-ReturnsIf boxes args)
    step_boxes-ReturnsIf (EventAst.delete_grab_box hitbox_id) =
        seven hitbox_id (delete_box-ReturnsIf boxes is_grab hitbox_id)
    step_boxes-ReturnsIf EventAst.delete_all_grab_boxes = inl (tt, (_, refl))
    step_boxes-ReturnsIf (EventAst.add_hit_box_damage hitbox_id add_damage) =
        let (d, same) = get_float_value-Returns add_damage in
        rw same (
          seven hitbox_id (
            change_box-ReturnsIf boxes hitbox_id
              (change_hit λ values. record values { damage = fl.add values.damage d })))
    step_boxes-ReturnsIf _ = inl (tt, (_, refl))

    kept :
        {P : Type 0} (m : Outcome (Boxes F))
        → Post IsBoxes m
        → ReturnsIf P m
        → (P × (t : Boxes F) × (m ≡ ok t) × IsBoxes t) ⊎ ((P → ⊥) × (m ≡ panic))
    kept m post (inl (p, (t, e))) = inl (p, t, e, Post-ok (rw e at post))
    kept m post (inr outside) = inr outside

    -- An event panics on the seven slots if it moves, changes or deletes a box, or creates a grab box,
    -- at an id that is not below 7. No other event panics on them, one that creates a hitbox at any id
    -- neither, and each leaves seven slots, every box in the slot of its id, and ten sets.
    pub step_boxes-Returns :
        (e : EventAst F)
        → (IsInside e × (t : Boxes F) × (step_boxes fl s e boxes ≡ ok t) × IsBoxes t)
          ⊎ ((IsInside e → ⊥) × (step_boxes fl s e boxes ≡ panic))
    step_boxes-Returns e =
        kept (step_boxes fl s e boxes) (step_boxes-IsBoxes fl s e boxes h) (step_boxes-ReturnsIf e)
