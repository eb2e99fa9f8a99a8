-- ===== src/ScriptAst/HitBoxLaws.antt =====
-- The bits that the hitbox arms of src/script_ast/mod.rs read are all the bits of their arguments.
use native.Mathlib.Nat.{div-div-eq-div-mul, mod-add-div}
use brawllib_rs.Prelude.{
  ℕ, ◌+◌, ◌*◌, ◌/◌, ◌%◌, ◌^◌, ◌<◌, ◌≡◌, ◌≢◌, refl, ◌∙◌, sym, ap, Bool, some, [], ◌∷◌, if◌then◌else◌,
  arith,
}
use brawllib_rs.Script.Argument.{value, scalar}
use brawllib_rs.ScriptAst.Shapes.{bits, test_bit}
use brawllib_rs.ScriptAst.HitBoxKinds.{hit_box_sound}
use brawllib_rs.ScriptAst.KindLaws.{
  hit_box_effect_value, hit_box_effect_value-hit_box_effect, hit_box_sound_value,
  hit_box_sound_value-hit_box_sound, hit_box_sse_type_value,
  hit_box_sse_type_value-hit_box_sse_type,
}
use brawllib_rs.ScriptAst.HitBoxes.{FloatValue, HitBoxArguments, SpecialHitBoxArguments}
use brawllib_rs.ScriptAst.HitBoxArms.{float_value, hit_box_arguments, create_special_hit_box}
use brawllib_rs.ScriptAst.Tree.{EventAst}

-- The bits from `k` on are the next `w` of them and those after them.
bits-split : (v a b c : ℕ) → a * b ≡ c → v / a ≡ v / a % b + b * (v / c)
bits-split v a b c e = rw (← e, ← div-div-eq-div-mul v a b) (sym (mod-add-div (v / a) b))

abbrev bit : Bool → ℕ
bit b = if b then 1 else 0

bit-test_bit : (v k : ℕ) → bit (test_bit v k) ≡ v / 2 ^ k % 2
unfolding test_bit
bit-test_bit v k = ground arith

-- The argument that the fields from the effect on are read from.
abbrev pub flags : {F : Type 0} → HitBoxArguments F → ℕ
flags x =
    hit_box_effect_value x.effect
    + 2 ^ 5 * bit x.unk1
    + 2 ^ 6 * x.sound_level
    + 2 ^ 8 * bit x.unk2
    + 2 ^ 9 * hit_box_sound_value x.sound
    + 2 ^ 14 * x.unk3
    + 2 ^ 16 * bit x.ground
    + 2 ^ 17 * bit x.aerial
    + 2 ^ 18 * x.unk4
    + 2 ^ 22 * hit_box_sse_type_value x.sse_type
    + 2 ^ 27 * bit x.clang
    + 2 ^ 28 * bit x.unk5
    + 2 ^ 29 * bit x.direct
    + 2 ^ 30 * x.unk6

-- The words that the fields before the damage and the knockback are read from.
abbrev pub place : {F : Type 0} → HitBoxArguments F → ℕ
place x = x.bone_index * 2 ^ 16 + x.set_id * 2 ^ 8 + x.hitbox_id

bits-flags :
    (v12 : ℕ)
    → v12 < 2 ^ 32
    → bits v12 0 5
        + 2 ^ 5 * (v12 / 2 ^ 5 % 2)
        + 2 ^ 6 * bits v12 6 2
        + 2 ^ 8 * (v12 / 2 ^ 8 % 2)
        + 2 ^ 9 * bits v12 9 5
        + 2 ^ 14 * bits v12 14 2
        + 2 ^ 16 * (v12 / 2 ^ 16 % 2)
        + 2 ^ 17 * (v12 / 2 ^ 17 % 2)
        + 2 ^ 18 * bits v12 18 4
        + 2 ^ 22 * bits v12 22 5
        + 2 ^ 27 * (v12 / 2 ^ 27 % 2)
        + 2 ^ 28 * (v12 / 2 ^ 28 % 2)
        + 2 ^ 29 * (v12 / 2 ^ 29 % 2)
        + 2 ^ 30 * bits v12 30 2
      ≡ v12
unfolding bits
bits-flags v12 h =
    let s0 = bits-split v12 1 32 32 refl in
    let s1 = bits-split v12 32 2 64 refl in
    let s2 = bits-split v12 64 4 256 refl in
    let s3 = bits-split v12 256 2 512 refl in
    let s4 = bits-split v12 512 32 16384 refl in
    let s5 = bits-split v12 16384 4 65536 refl in
    let s6 = bits-split v12 65536 2 131072 refl in
    let s7 = bits-split v12 131072 2 262144 refl in
    let s8 = bits-split v12 262144 16 4194304 refl in
    let s9 = bits-split v12 4194304 32 134217728 refl in
    let s10 = bits-split v12 134217728 2 268435456 refl in
    let s11 = bits-split v12 268435456 2 536870912 refl in
    let s12 = bits-split v12 536870912 2 1073741824 refl in
    let s13 = bits-split v12 1073741824 4 4294967296 refl in
    omega (arith, s0, s1, s2, s3, s4, s5, s6, s7, s8, s9, s10, s11, s12, s13)

module _ {F : Type 0} (damage : FloatValue F) (v0 v2 v3 v4 : ℕ) (v5 v6 v7 v8 v9 v10 v11 : F)
    (v12 : ℕ) where
  abbrev pub plain_hit_box : HitBoxArguments F
  plain_hit_box =
      hit_box_arguments damage (hit_box_sound (bits v12 9 5)) v0 v2 v3 v4 v5 v6 v7 v8 v9 v10 v11 v12

  flags-hit_box_arguments : v12 < 2 ^ 32 → flags plain_hit_box ≡ v12
  unfolding hit_box_arguments
  flags-hit_box_arguments h =
      rw
        (
          hit_box_effect_value-hit_box_effect (bits v12 0 5),
          hit_box_sound_value-hit_box_sound (bits v12 9 5),
          hit_box_sse_type_value-hit_box_sse_type (bits v12 22 5),
          bit-test_bit v12 5,
          bit-test_bit v12 8,
          bit-test_bit v12 16,
          bit-test_bit v12 17,
          bit-test_bit v12 27,
          bit-test_bit v12 28,
          bit-test_bit v12 29,
        )
        (bits-flags v12 h)

  -- The fields of a hitbox keep all the bits of the four packed arguments that they are read from:
  -- each argument, of 32 bits, is computed back from them.
  pub hit_box_arguments_lem :
      v0 < 2 ^ 32
      → v3 < 2 ^ 32
      → v4 < 2 ^ 32
      → v12 < 2 ^ 32
      → (place plain_hit_box ≡ v0)
        × (plain_hit_box.wdsk * 2 ^ 16 + plain_hit_box.kbg ≡ v3)
        × (plain_hit_box.shield_damage * 2 ^ 16 + plain_hit_box.bkb ≡ v4)
        × (flags plain_hit_box ≡ v12)
  unfolding hit_box_arguments bits
  hit_box_arguments_lem h0 h3 h4 h12 =
      (omega arith, omega arith, omega arith, flags-hit_box_arguments h12)

  -- A special hitbox has another sound than a hitbox with the same bits of sound, unless these bits
  -- are 0.
  pub create_special_hit_box_sound :
      (as_f32 : ℕ → F) (constant v13 v14 : ℕ)
      → 0 < bits v12 9 5
      → (x : SpecialHitBoxArguments F) × (create_special_hit_box as_f32 (
            value v0
            ∷ value constant
            ∷ value v2
            ∷ value v3
            ∷ value v4
            ∷ scalar v5
            ∷ scalar v6
            ∷ scalar v7
            ∷ scalar v8
            ∷ scalar v9
            ∷ scalar v10
            ∷ scalar v11
            ∷ value v12
            ∷ value v13
            ∷ value v14
            ∷ [])
          ≡ some (EventAst.create_special_hit_box x))
        × (x.hitbox_args.sound ≢ plain_hit_box.sound)
  unfolding create_special_hit_box hit_box_arguments float_value
  create_special_hit_box_sound as_f32 constant v13 v14 some_sound = (
    _,
    refl,
    λ same.
        let values : bits v12 9 5 * 2 ^ 3 ≡ bits v12 9 5 =
          sym (hit_box_sound_value-hit_box_sound (bits v12 9 5 * 2 ^ 3))
          ∙ ap hit_box_sound_value same
          ∙ hit_box_sound_value-hit_box_sound (bits v12 9 5) in
        omega (arith, values, some_sound),
  )
