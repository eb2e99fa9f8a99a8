-- ===== src/ScriptAst/LeafEvents.antt =====
-- An event of src/script_ast/mod.rs that neither begins nor ends a block is made to one event.
use brawllib_rs.Prelude.{
  ℕ, ◌≡◌, refl, Bool, Option, none, some, [], ◌∷◌, ◌==◌, leb, if◌then◌else◌, arith,
}
use brawllib_rs.Outcome.{Outcome, ok, Post, Post-if, Post-bind, returns, panics}
use brawllib_rs.Script.Argument.{Event, value, scalar}
use brawllib_rs.ScriptAst.Shapes.{Arguments}
use brawllib_rs.ScriptAst.HitBoxes.{FloatValue}
use brawllib_rs.ScriptAst.HitBoxArms.{
  float_value, create_hit_box, thrown_hit_box, create_special_hit_box,
}
use brawllib_rs.ScriptAst.CollisionArms.{
  create_grab_box, added_damage, add_hit_box_damage, collisions,
}
use brawllib_rs.ScriptAst.Tree.{EventAst}
use brawllib_rs.ScriptAst.Arms.{or_unknown, event_ast}
use brawllib_rs.ScriptAst.Leaves.{
  count_event, IsLeaf, no_arguments-IsLeaf, one_value-IsLeaf, two_values-IsLeaf,
}
use brawllib_rs.ScriptAst.LeafArms.{
  defensive_collision-IsLeaf, move_hit_box-IsLeaf, specify_throw-IsLeaf, apply_throw-IsLeaf,
}
use brawllib_rs.ScriptAst.LeafTables.{other_arms-IsLeaf}

module _ {F : Type 0} where
  -- A test whose first branch makes one event, if the others do.
  Post-else :
      (b : Bool) (a : Option (EventAst F)) (y : Outcome (Option (EventAst F)))
      → IsLeaf a
      → Post IsLeaf y
      → Post IsLeaf (if b then ok a else y)
  Post-else b a y h k = Post-if b (returns h) k

  Post-then_else :
      (b : Bool) (x y : Outcome (Option (EventAst F)))
      → Post IsLeaf x
      → Post IsLeaf y
      → Post IsLeaf (if b then x else y)
  Post-then_else b x y h k = Post-if b h k

  nothing-IsLeaf : Post (IsLeaf {F = F}) (ok none)
  nothing-IsLeaf = returns tt

  create_grab_box-IsLeaf : (args : Arguments F) → Post IsLeaf (create_grab_box args)
  unfolding create_grab_box count_event
  create_grab_box-IsLeaf
        (value v0
          ∷ value v1
          ∷ scalar v2
          ∷ scalar v3
          ∷ scalar v4
          ∷ scalar v5
          ∷ value v6
          ∷ value v7
          ∷ args) =
      Post-if (leb v0 0xFF) (returns refl) panics
  create_grab_box-IsLeaf _ = returns tt

module _ {F : Type 0} (as_f32 : ℕ → F) where
  create_hit_box-IsLeaf : (args : Arguments F) → IsLeaf (create_hit_box as_f32 args)
  unfolding create_hit_box count_event float_value
  create_hit_box-IsLeaf args = ground arith

  thrown_hit_box-IsLeaf : (args : Arguments F) → IsLeaf (thrown_hit_box as_f32 args)
  unfolding thrown_hit_box count_event
  thrown_hit_box-IsLeaf args = ground arith

  create_special_hit_box-IsLeaf : (args : Arguments F) → IsLeaf (create_special_hit_box as_f32 args)
  unfolding create_special_hit_box count_event float_value
  create_special_hit_box-IsLeaf args = ground arith

  added_damage-IsLeaf : (v0 : ℕ) (d : Option (FloatValue F)) → IsLeaf (added_damage as_f32 v0 d)
  unfolding added_damage count_event
  added_damage-IsLeaf v0 none = tt
  added_damage-IsLeaf v0 (some d) = refl

  add_hit_box_damage-IsLeaf : (args : Arguments F) → Post IsLeaf (add_hit_box_damage as_f32 args)
  unfolding add_hit_box_damage
  add_hit_box_damage-IsLeaf (value v0 ∷ v1 ∷ []) = returns (added_damage-IsLeaf v0 _)
  add_hit_box_damage-IsLeaf _ = panics

  collisions-IsLeaf : (code : ℕ) (args : Arguments F) → Post IsLeaf (collisions as_f32 code args)
  unfolding collisions count_event
  collisions-IsLeaf code args =
      search
        (
          Post-else, Post-then_else, nothing-IsLeaf, create_grab_box-IsLeaf, create_hit_box-IsLeaf,
          thrown_hit_box-IsLeaf, create_special_hit_box-IsLeaf, add_hit_box_damage-IsLeaf,
          defensive_collision-IsLeaf, move_hit_box-IsLeaf, specify_throw-IsLeaf, apply_throw-IsLeaf,
          no_arguments-IsLeaf, one_value-IsLeaf, two_values-IsLeaf,
        )
        depth 24

  or_unknown-IsLeaf :
      (event : Event F) (e : Option (EventAst F)) → IsLeaf e → count_event (or_unknown event e) ≡ 1
  unfolding or_unknown count_event
  or_unknown-IsLeaf event none h = refl
  or_unknown-IsLeaf event (some e) h = h

  pub event_ast-count : (event : Event F) → Post (λ e. count_event e ≡ 1) (event_ast as_f32 event)
  unfolding event_ast
  event_ast-count event =
      Post-if (event.namespace == 0x06)
        (Post-bind (collisions-IsLeaf event.code event.arguments)
          λ e leaf. returns (or_unknown-IsLeaf event e leaf))
        (returns (
          or_unknown-IsLeaf event _ (other_arms-IsLeaf event.namespace event.code event.arguments)))
