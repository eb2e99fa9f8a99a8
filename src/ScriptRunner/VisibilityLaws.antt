-- ===== src/ScriptRunner/VisibilityLaws.antt =====
-- The two loops over bones in `ScriptRunner::new` of src/script_runner.rs undo each other.
use mathlib.Core.List.{append-nil, append_assoc}
use brawllib_rs.Prelude.{ℕ, ◌≡◌, refl, sym, ◌∙◌, true, List, [], ◌∷◌, ◌++◌, All, All-mono, arith}
use brawllib_rs.ScriptRunner.StepFlow.{is_in}
use brawllib_rs.ScriptRunner.Visibility.{
  VisibilityReference, VisibilityDefault, ModelVisibility, default_bones, for_bones, for_defaults,
  for_references, push_bone, retain_others, invisible_bones,
}

-- All bones of the groups that the defaults enable, in the order of the loops.
abbrev bones_of : VisibilityReference → List VisibilityDefault → List ℕ
bones_of r [] = []
bones_of r (d ∷ ds) = default_bones r d ++ bones_of r ds

abbrev all_bones : List VisibilityReference → List VisibilityDefault → List ℕ
all_bones [] ds = []
all_bones (r ∷ rs) ds = bones_of r ds ++ all_bones rs ds

module _ (f : ℕ → List ℕ → List ℕ) where
  for_bones-append :
      (xs ys acc : List ℕ) → for_bones f (xs ++ ys) acc ≡ for_bones f ys (for_bones f xs acc)
  unfolding for_bones
  for_bones-append [] ys acc = refl
  for_bones-append (x ∷ xs) ys acc = for_bones-append xs ys (f x acc)

  for_defaults-bones_of :
      (r : VisibilityReference) (ds : List VisibilityDefault) (acc : List ℕ)
      → for_defaults f r ds acc ≡ for_bones f (bones_of r ds) acc
  unfolding for_defaults for_bones
  for_defaults-bones_of r [] acc = refl
  for_defaults-bones_of r (d ∷ ds) acc =
      for_defaults-bones_of r ds _ ∙ sym (for_bones-append (default_bones r d) (bones_of r ds) acc)

  for_references-all_bones :
      (rs : List VisibilityReference) (ds : List VisibilityDefault) (acc : List ℕ)
      → for_references f rs ds acc ≡ for_bones f (all_bones rs ds) acc
  unfolding for_references for_bones
  for_references-all_bones [] ds acc = refl
  for_references-all_bones (r ∷ rs) ds acc =
      rw (for_references-all_bones rs ds _, for_defaults-bones_of r ds acc)
        (sym (for_bones-append (bones_of r ds) (all_bones rs ds) acc))

abbrev AllIn : List ℕ → List ℕ → Type 0
AllIn xs = All (λ x. is_in x xs ≡ true)

for_bones-push_bone : (xs acc : List ℕ) → for_bones push_bone xs acc ≡ acc ++ xs
unfolding for_bones push_bone
for_bones-push_bone [] acc = sym (append-nil acc)
for_bones-push_bone (x ∷ xs) acc =
    for_bones-push_bone xs (acc ++ x ∷ []) ∙ append_assoc acc (x ∷ []) xs

retain_others-AllIn :
    (b : ℕ) (xs acc : List ℕ) → AllIn (b ∷ xs) acc → AllIn xs (retain_others b acc)
unfolding retain_others is_in
retain_others-AllIn b xs [] h = tt
retain_others-AllIn b xs (y ∷ ys) (h, k) = let rest = retain_others-AllIn b xs ys k in ground arith

for_bones-retain_others : (xs acc : List ℕ) → AllIn xs acc → for_bones retain_others xs acc ≡ []
unfolding for_bones is_in
for_bones-retain_others [] [] h = refl
for_bones-retain_others [] (y ∷ ys) h = cc
for_bones-retain_others (x ∷ xs) acc h =
    for_bones-retain_others xs (retain_others x acc) (retain_others-AllIn x xs acc h)

AllIn-self : (xs : List ℕ) → AllIn xs xs
unfolding is_in
AllIn-self [] = tt
AllIn-self (x ∷ xs) = (ground arith, All-mono xs (λ y h. ground arith) (AllIn-self xs))

-- Whatever the groups of a fighter, no bone is invisible in a new runner: each bone that the first loop
-- hides is shown again by the second one.
pub invisible_bones-none : (v : ModelVisibility) → invisible_bones v ≡ []
unfolding invisible_bones
invisible_bones-none v =
    let bones = all_bones v.references v.defaults in
    rw
      (
        for_references-all_bones push_bone v.references v.defaults [],
        for_bones-push_bone bones [],
        for_references-all_bones retain_others v.references v.defaults bones,
      )
      (for_bones-retain_others bones bones (AllIn-self bones))
