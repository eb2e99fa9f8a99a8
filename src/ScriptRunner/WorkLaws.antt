-- ===== src/ScriptRunner/WorkLaws.antt =====
-- Every round of the loop of `step_script` in src/script_runner.rs has less work left than the one before.
use mathlib.Core.Path.{subst}
use brawllib_rs.Prelude.{
  ℕ, ◌+◌, ◌≤◌, ◌≡◌, false, Option, none, some, List, [], ◌∷◌, All, Bool-cases, inl, inr, ◌==◌,
  arith,
}
use brawllib_rs.ScriptRunner.State.{Located, SectionScriptAst}
use brawllib_rs.ScriptRunner.StepFlow.{is_in, section_of, script_at, callee_at, begins_with_event}
use brawllib_rs.ScriptRunner.Work.{Bounds, room}

-- A predicate on what a search finds, if it finds something.
abbrev pub AllFound : {A : Type 0} → (A → Type 0) → Option A → Type 0
AllFound P none = Unit
AllFound P (some a) = P a

module _ {F : Type 0} where
  pub section_of-All :
      (P : Located F → Type 0) (origin : ℕ) (xs : List (SectionScriptAst F))
      → All (λ (x : SectionScriptAst F). P x.script) xs
      → AllFound P (section_of origin xs)
  unfolding section_of
  section_of-All P origin [] h = tt
  section_of-All P origin (x ∷ xs) h = elim (Bool-cases (is_in origin x.callers)) [
    | inl e ↦ rw e h.0
    | inr e ↦ rw e (section_of-All P origin xs h.1)
  ]

  pub script_at-All :
      (P : Located F → Type 0) (offset : ℕ) (xs : List (Located F))
      → All P xs
      → AllFound P (script_at offset xs)
  unfolding script_at
  script_at-All P offset [] h = tt
  script_at-All P offset (x ∷ xs) h = elim (Bool-cases (x.script.offset == offset)) [
    | inl e ↦ rw e h.0
    | inr e ↦ rw e (script_at-All P offset xs h.1)
  ]

  -- A subroutine that is found has the offset.
  pub callee_at-All :
      (P : ℕ → Located F → Type 0) (first : Option ℕ) (offset : ℕ) (xs : List (Located F))
      → All (λ (x : Located F). P x.script.offset x) xs
      → AllFound (P offset) (callee_at first offset xs)
  unfolding callee_at
  callee_at-All P first offset [] h = tt
  callee_at-All P first offset (x ∷ xs) h = elim (Bool-cases (x.script.offset == offset)) [
    | inl e ↦ elim (Bool-cases (begins_with_event first x)) [
      | inl own ↦ rw (e, own) (callee_at-All P first offset xs h.1)
      | inr other ↦
          let same : x.script.offset ≡ offset = ground arith in
          rw (e, other) (subst (λ k. P k x) same h.0)
    ]
    | inr e ↦ rw e (callee_at-All P first offset xs h.1)
  ]

module _ (B : Bounds) {F : Type 0} where
  -- A goto only takes room away, and takes that of a script which is found.
  pub room-le :
      (xs : List (Located F)) (o : ℕ) (visited : List ℕ)
      → room B xs (o ∷ visited) ≤ room B xs visited
  unfolding room is_in
  room-le [] o visited = omega arith
  room-le (x ∷ xs) o visited = ground (arith, room-le xs o visited)

  pub room-script_at :
      (xs : List (Located F)) (o : ℕ) (visited : List ℕ) {x : Located F}
      → is_in o visited ≡ false
      → script_at o xs ≡ some x
      → room B xs (o ∷ visited) + B.goto_cost ≤ room B xs visited
  unfolding room is_in script_at
  room-script_at [] o visited new h = cc
  room-script_at (y ∷ ys) o visited {x} new h = elim (Bool-cases (y.script.offset == o)) [
    | inl e ↦
        let same : y.script.offset ≡ o = ground arith in
        rw same (ground (arith, room-le ys o visited))
    | inr e ↦ ground (arith, room-script_at ys o visited {x = x} new (rw e at h))
  ]
