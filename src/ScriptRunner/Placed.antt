-- ===== src/ScriptRunner/Placed.antt =====
-- Slots of collision boxes of src/script_runner.rs in which every box lies in the slot of its id.
use mathlib.Core.Path.{subst}
use brawllib_rs.Prelude.{
  ℕ, zero, suc, ◌+◌, ◌<◌, ◌≡◌, refl, ap, inl, inr, Bool, Option, none, some, List, [], ◌∷◌, length,
  set, Bool-cases, arith,
}
use brawllib_rs.Outcome.{index, Post, Post-mono, returns, panics}
use brawllib_rs.ScriptRunner.CollisionBox.{
  HitBoxValues, CollisionBoxValues, hit, grab, ScriptCollisionBox,
}
use brawllib_rs.ScriptRunner.HitBoxes.{change_hit, cleared, delete_all}

module _ {F : Type 0} where
  abbrev pub IsOwn : ℕ → Option (ScriptCollisionBox F) → Type 0
  IsOwn n none = Unit
  IsOwn n (some box) = box.hitbox_id ≡ n

  abbrev pub IsPlaced : ℕ → List (Option (ScriptCollisionBox F)) → Type 0
  IsPlaced n [] = Unit
  IsPlaced n (slot ∷ slots) = IsOwn n slot × IsPlaced (suc n) slots

module _ {F : Type 0} where
  IsPlaced-set :
      (n : ℕ) (slots : List (Option (ScriptCollisionBox F))) (i : ℕ)
      (slot : Option (ScriptCollisionBox F))
      → IsPlaced n slots
      → IsOwn (n + i) slot
      → IsPlaced n (set slots i slot)
  IsPlaced-set n [] i slot h own = tt
  IsPlaced-set n (x ∷ slots) zero slot h own =
      let same : n + zero ≡ n = omega arith in (subst (λ k. IsOwn k slot) same own, h.1)
  IsPlaced-set n (x ∷ slots) (suc i) slot h own =
      let same : n + suc i ≡ suc n + i = omega arith in
      (h.0, IsPlaced-set (suc n) slots i slot h.1 (subst (λ k. IsOwn k slot) same own))

  -- A slot that is read lies inside, and its box is its own.
  abbrev IsRead :
      List (Option (ScriptCollisionBox F)) → (n i : ℕ) → Option (ScriptCollisionBox F) → Type 0
  IsRead slots n i slot = (i < length slots) × IsOwn (n + i) slot

  index-IsRead :
      (slots : List (Option (ScriptCollisionBox F))) (n i : ℕ)
      → IsPlaced n slots
      → Post (IsRead slots n i) (index slots i)
  unfolding index
  index-IsRead [] n i h = panics
  index-IsRead (x ∷ slots) n zero h =
      let same : n ≡ n + zero = omega arith in
      returns (omega arith, subst (λ k. IsOwn k x) same h.0)
  index-IsRead (x ∷ slots) n (suc i) h =
      let same : suc n + i ≡ n + suc i = omega arith in
      Post-mono (index-IsRead slots (suc n) i h.1)
        λ slot read. (omega (arith, read.0), subst (λ k. IsOwn k slot) same read.1)

  -- The same for the whole list.
  pub IsPlaced-set_slot :
      (slots : List (Option (ScriptCollisionBox F))) (i : ℕ) (slot : Option (ScriptCollisionBox F))
      → IsPlaced 0 slots
      → IsOwn i slot
      → IsPlaced 0 (set slots i slot)
  IsPlaced-set_slot slots i slot h own =
      let same : i ≡ 0 + i = omega arith in
      IsPlaced-set 0 slots i slot h (subst (λ k. IsOwn k slot) same own)

  pub index-IsOwn :
      (slots : List (Option (ScriptCollisionBox F))) (i : ℕ)
      → IsPlaced 0 slots
      → Post (λ slot. (i < length slots) × IsOwn i slot) (index slots i)
  index-IsOwn slots i h =
      let same : 0 + i ≡ i = omega arith in
      Post-mono (index-IsRead slots 0 i h)
        λ slot read. (read.0, subst (λ k. IsOwn k slot) same read.1)

  pub cleared-IsOwn :
      (is : ScriptCollisionBox F → Bool) (n : ℕ) (slot : Option (ScriptCollisionBox F))
      → IsOwn n slot
      → IsOwn n (cleared is slot)
  unfolding cleared
  cleared-IsOwn is n none h = tt
  cleared-IsOwn is n (some box) h = elim (Bool-cases (is box)) [ inl e ↦ rw e tt | inr e ↦ rw e h ]

  changed_id :
      (f : HitBoxValues F → HitBoxValues F) (box : ScriptCollisionBox F) (v : CollisionBoxValues F)
      → (elim v as (λ _. ScriptCollisionBox F) [
        | hit values ↦ record box { values = hit (f values) }
        | grab _ ↦ box
      ]).hitbox_id
        ≡ box.hitbox_id
  changed_id f box (hit values) = refl
  changed_id f box (grab values) = refl

  pub change_hit-id :
      (f : HitBoxValues F → HitBoxValues F) (box : ScriptCollisionBox F)
      → (change_hit f box).hitbox_id ≡ box.hitbox_id
  unfolding change_hit
  change_hit-id f box = changed_id f box box.values

  pub delete_all-IsPlaced :
      (is : ScriptCollisionBox F → Bool) (n : ℕ) (slots : List (Option (ScriptCollisionBox F)))
      → IsPlaced n slots
      → IsPlaced n (delete_all is slots)
  unfolding delete_all
  delete_all-IsPlaced is n [] h = tt
  delete_all-IsPlaced is n (x ∷ slots) h =
      (cleared-IsOwn is n x h.0, delete_all-IsPlaced is (suc n) slots h.1)

  pub length-delete_all :
      (is : ScriptCollisionBox F → Bool) (slots : List (Option (ScriptCollisionBox F)))
      → length (delete_all is slots) ≡ length slots
  unfolding delete_all
  length-delete_all is [] = refl
  length-delete_all is (x ∷ slots) = ap suc (length-delete_all is slots)
