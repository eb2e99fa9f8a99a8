-- ===== src/ScriptAst/Safe.antt =====
-- The events of src/script_ast/mod.rs whose arms may panic: those that add damage to a hitbox and
-- those that create a grab box.
use mathlib.Core.Path.{subst}
use mathlib.Core.Logic.{◌↔◌}
use brawllib_rs.Prelude.{
  ℕ, ◌≤◌, ◌≡◌, refl, inl, inr, Bool, true, false, Option, none, [], ◌∷◌, Bool-cases, ◌==◌, le→leb,
  if◌then◌else◌, arith,
}
use brawllib_rs.Outcome.{Outcome, ok, panic, ◌>>=◌}
use brawllib_rs.Script.Argument.{Event, value, scalar}
use brawllib_rs.ScriptAst.Shapes.{Arguments}
use brawllib_rs.ScriptAst.CollisionArms.{create_grab_box, add_hit_box_damage, collisions}
use brawllib_rs.ScriptAst.Tree.{EventAst}
use brawllib_rs.ScriptAst.Arms.{event_ast, or_unknown}
use brawllib_rs.ScriptAst.Ends.{IsSafe}

abbrev IsOk {ℓ} : {A : Type ℓ} → Outcome A → Type ℓ
IsOk m = (v : _) × (m ≡ ok v)

module _ {ℓ} {A : Type ℓ} where
  -- A test whose first branch returns, if the others do.
  IsOk-else : (b : Bool) (a : A) (y : Outcome A) → IsOk y → IsOk (if b then ok a else y)
  IsOk-else true a y h = (_, refl)
  IsOk-else false a y h = h

  IsOk-then :
      (b : Bool) (x y : Outcome A) → (b ≡ true → IsOk x) → IsOk y → IsOk (if b then x else y)
  IsOk-then true x y k h = k refl
  IsOk-then false x y k h = h

module _ {F : Type 0} where
  -- The arguments of a grab box have an id of one byte.
  abbrev pub HasGrabId : Arguments F → Type 0
  HasGrabId
        (value v0
          ∷ value v1
          ∷ scalar v2
          ∷ scalar v3
          ∷ scalar v4
          ∷ scalar v5
          ∷ value v6
          ∷ value v7
          ∷ args) =
      v0 ≤ 0xFF
  HasGrabId _ = Unit

  -- The arguments of added damage are a value and one argument more.
  abbrev pub IsDamage : Arguments F → Type 0
  IsDamage (value v0 ∷ v1 ∷ []) = Unit
  IsDamage _ = ⊥

  abbrev pub IsAccepted : (code : ℕ) → Arguments F → Type 0
  IsAccepted code args = (code ≡ 0x0A → HasGrabId args) × (code ≡ 0x14 → IsDamage args)

  create_grab_box-IsOk : (args : Arguments F) → HasGrabId args → IsOk (create_grab_box args)
  unfolding create_grab_box
  create_grab_box-IsOk
        (value v0
          ∷ value v1
          ∷ scalar v2
          ∷ scalar v3
          ∷ scalar v4
          ∷ scalar v5
          ∷ value v6
          ∷ value v7
          ∷ args)
        h =
      rw (le→leb v0 0xFF h) (_, refl)
  create_grab_box-IsOk _ h = (_, refl)

  create_grab_box-HasGrabId : (args : Arguments F) → IsOk (create_grab_box args) → HasGrabId args
  unfolding create_grab_box
  create_grab_box-HasGrabId
        (value v0
          ∷ value v1
          ∷ scalar v2
          ∷ scalar v3
          ∷ scalar v4
          ∷ scalar v5
          ∷ value v6
          ∷ value v7
          ∷ args)
        (v, e) =
      ground arith
  create_grab_box-HasGrabId _ h = tt

module _ {F : Type 0} (as_f32 : ℕ → F) where
  add_hit_box_damage-IsOk :
      (args : Arguments F) → IsDamage args → IsOk (add_hit_box_damage as_f32 args)
  unfolding add_hit_box_damage
  add_hit_box_damage-IsOk (value v0 ∷ v1 ∷ []) h = (_, refl)
  add_hit_box_damage-IsOk _ h = absurd h

  -- The two tests of the match that lead to them.
  module _ (code : ℕ) (args : Arguments F) (accepted : IsAccepted code args)
      (y : Outcome (Option (EventAst F))) (rest : IsOk y) where
    grab_box-IsOk : IsOk (if code == 0x0A then create_grab_box args else y)
    grab_box-IsOk =
        IsOk-then (code == 0x0A) _ _ (λ e. create_grab_box-IsOk args (accepted.0 (ground arith)))
          rest

    damage-IsOk : IsOk (if code == 0x14 then add_hit_box_damage as_f32 args else y)
    damage-IsOk =
        IsOk-then (code == 0x14) _ _ (λ e. add_hit_box_damage-IsOk args (accepted.1 (ground arith)))
          rest

  nothing-IsOk : IsOk {A = Option (EventAst F)} (ok none)
  nothing-IsOk = (_, refl)

  collisions-IsOk :
      (code : ℕ) (args : Arguments F) → IsAccepted code args → IsOk (collisions as_f32 code args)
  unfolding collisions
  collisions-IsOk code args accepted =
      search (IsOk-else, grab_box-IsOk, damage-IsOk, nothing-IsOk) depth 20

  add_hit_box_damage-IsDamage :
      (args : Arguments F) → IsOk (add_hit_box_damage as_f32 args) → IsDamage args
  unfolding add_hit_box_damage
  add_hit_box_damage-IsDamage (value v0 ∷ v1 ∷ []) h = tt
  add_hit_box_damage-IsDamage _ (v, e) = absurd cc

  collisions-IsAccepted :
      (code : ℕ) (args : Arguments F) → IsOk (collisions as_f32 code args) → IsAccepted code args
  unfolding collisions
  collisions-IsAccepted code args h = (
    λ e. create_grab_box-HasGrabId args (subst (λ c. IsOk (collisions as_f32 c args)) e h),
    λ e. add_hit_box_damage-IsDamage args (subst (λ c. IsOk (collisions as_f32 c args)) e h),
  )

  bind-IsOk :
      (event : Event F) (m : Outcome (Option (EventAst F)))
      → IsOk (m >>= λ e. ok (or_unknown event e)) ↔ IsOk m
  bind-IsOk event (ok e) = (λ _. (e, refl), λ _. (_, refl))
  bind-IsOk event panic = (λ h. absurd (let (v, e) = h in cc), λ h. absurd (let (v, e) = h in cc))

  -- The arm of an event that neither begins nor ends a block makes an event, unless the event is
  -- one of namespace 0x06 that creates a grab box with an id of more than one byte or that adds
  -- damage with other arguments than a value and one more: on these two it panics.
  pub event_ast-IsSafe :
      (event : Event F)
      → IsSafe as_f32 event ↔ (event.namespace ≡ 0x06 → IsAccepted event.code event.arguments)
  unfolding event_ast
  event_ast-IsSafe event = elim (Bool-cases (event.namespace == 0x06)) [
    | inl h ↦
        let (into, back) = bind-IsOk event (collisions as_f32 event.code event.arguments) in
        rw h (
          λ safe _. collisions-IsAccepted event.code event.arguments (into safe),
          λ accepted. back (collisions-IsOk event.code event.arguments (accepted (ground arith))),
        )
    | inr h ↦ rw h (λ safe e. absurd (ground arith), λ accepted. (_, refl))
  ]
