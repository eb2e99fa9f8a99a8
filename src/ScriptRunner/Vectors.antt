-- ===== src/ScriptRunner/Vectors.antt =====
-- The vectors of variables without a name in src/script_runner.rs: a read out of range gives a default,
-- a write out of range does nothing.
use mathlib.Core.Option.{get_or}
use brawllib_rs.Prelude.{
  ℕ, zero, suc, ◌<◌, ◌≡◌, ◌≢◌, refl, inl, inr, List, [], ◌∷◌, length, get_elem?, set, length-set,
  ltb, lt→ltb, Bool-cases, if◌then◌else◌, arith,
}

module _ {A : Type 0} where
  -- `xs.get(address).cloned().unwrap_or(default)`
  unfoldable pub read : A → List A → ℕ → A
  read default xs address = get_or (get_elem? xs address) default

  -- `if address < xs.len() { xs[address] = value; }`
  unfoldable pub put : List A → ℕ → A → List A
  put xs address value = if ltb address (length xs) then set xs address value else xs

  get_elem-set :
      (xs : List A) (i : ℕ) (x d : A) → i < length xs → get_or (get_elem? (set xs i x) i) d ≡ x
  get_elem-set [] i x d h = absurd (omega arith)
  get_elem-set (y ∷ xs) zero x d h = refl
  get_elem-set (y ∷ xs) (suc i) x d h = get_elem-set xs i x d (omega arith)

  get_elem-set_ne :
      (xs : List A) (i j : ℕ) (x : A) → i ≢ j → get_elem? (set xs i x) j ≡ get_elem? xs j
  get_elem-set_ne [] i j x h = refl
  get_elem-set_ne (y ∷ xs) zero zero x h = absurd (h refl)
  get_elem-set_ne (y ∷ xs) zero (suc j) x h = refl
  get_elem-set_ne (y ∷ xs) (suc i) zero x h = refl
  get_elem-set_ne (y ∷ xs) (suc i) (suc j) x h = get_elem-set_ne xs i j x λ e. h (omega arith)

  pub read-put : (d : A) (xs : List A) (i : ℕ) (x : A) → i < length xs → read d (put xs i x) i ≡ x
  unfolding read put
  read-put d xs i x h = rw (lt→ltb i (length xs) h) (get_elem-set xs i x d h)

  pub read-put_ne :
      (d : A) (xs : List A) (i j : ℕ) (x : A) → i ≢ j → read d (put xs i x) j ≡ read d xs j
  unfolding read put
  read-put_ne d xs i j x h = elim (Bool-cases (ltb i (length xs))) [
    | inl e ↦ rw e (rw (get_elem-set_ne xs i j x h) refl)
    | inr e ↦ rw e refl
  ]

  pub length-put : (xs : List A) (i : ℕ) (x : A) → length (put xs i x) ≡ length xs
  unfolding put
  length-put xs i x = elim (Bool-cases (ltb i (length xs))) [
    | inl e ↦ rw e (length-set xs i x)
    | inr e ↦ rw e refl
  ]
