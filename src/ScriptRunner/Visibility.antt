-- ===== src/ScriptRunner/Visibility.antt =====
-- The bones that `ScriptRunner::new` of src/script_runner.rs makes invisible, by the visibility groups of
-- src/sakurai/fighter_data/mod.rs.
use brawllib_rs.Prelude.{
  ℕ, ◌+◌, ◌-◌, ◌^◌, none, some, List, [], ◌∷◌, ◌++◌, get_elem?, ltb, ◌==◌, if◌then◌else◌,
}

pub record VisibilityGroup : Type 0 where
  pub bones : List ℕ

pub record VisibilityBoneSwitch : Type 0 where
  pub groups : List VisibilityGroup

pub record VisibilityReference : Type 0 where
  pub bone_switches : List VisibilityBoneSwitch

pub record VisibilityDefault : Type 0 where
  pub switch_index : ℕ
  pub group_index : ℕ

pub record ModelVisibility : Type 0 where
  pub references : List VisibilityReference
  pub defaults : List VisibilityDefault

-- `as usize` of an i32, which extends its sign.
unfoldable pub usize_of_i32 : ℕ → ℕ
usize_of_i32 x = if ltb x (2 ^ 31) then x else x + (2 ^ 64 - 2 ^ 32)

-- The bones of the group that a default enables, if the reference has it.
unfoldable pub default_bones : VisibilityReference → VisibilityDefault → List ℕ
unfolding usize_of_i32
default_bones r d = elim (get_elem? r.bone_switches (usize_of_i32 d.switch_index)) [
  | none ↦ []
  | some bone_switch ↦ elim (get_elem? bone_switch.groups (usize_of_i32 d.group_index)) [
    | none ↦ []
    | some group ↦ group.bones
  ]
]

-- The four loops, around what is done for each bone.
module _ (f : ℕ → List ℕ → List ℕ) where
  unfoldable pub for_bones : List ℕ → List ℕ → List ℕ
  for_bones [] invisible = invisible
  for_bones (bone ∷ bones) invisible = for_bones bones (f bone invisible)

  unfoldable pub for_defaults : VisibilityReference → List VisibilityDefault → List ℕ → List ℕ
  for_defaults r [] invisible = invisible
  for_defaults r (d ∷ ds) invisible = for_defaults r ds (for_bones (default_bones r d) invisible)

  unfoldable pub for_references :
      List VisibilityReference → List VisibilityDefault → List ℕ → List ℕ
  for_references [] ds invisible = invisible
  for_references (r ∷ rs) ds invisible = for_references rs ds (for_defaults r ds invisible)

-- `push`
unfoldable pub push_bone : ℕ → List ℕ → List ℕ
push_bone bone invisible = invisible ++ bone ∷ []

-- `retain(|x| x != bone)`
unfoldable pub retain_others : ℕ → List ℕ → List ℕ
retain_others bone [] = []
retain_others bone (x ∷ xs) =
    let rest = retain_others bone xs in if x == bone then rest else x ∷ rest

unfoldable pub invisible_bones : ModelVisibility → List ℕ
unfolding for_references
invisible_bones v =
    for_references retain_others v.references v.defaults
      (for_references push_bone v.references v.defaults [])
