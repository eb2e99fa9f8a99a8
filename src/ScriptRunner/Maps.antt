-- ===== src/ScriptRunner/Maps.antt =====
-- The maps of src/script_runner.rs with i32 keys, as association lists with one entry for a key.
use brawllib_rs.Prelude.{ℕ, List, [], ◌∷◌, ◌==◌, if◌then◌else◌}

module _ {A : Type 0} where
  -- `remove`
  unfoldable pub remove : ℕ → List (ℕ × A) → List (ℕ × A)
  remove key [] = []
  remove key ((k, a) ∷ entries) =
      let rest = remove key entries in if k == key then rest else (k, a) ∷ rest

  -- `insert`, which replaces the value of a key that is there.
  unfoldable pub insert : ℕ → A → List (ℕ × A) → List (ℕ × A)
  unfolding remove
  insert key value entries = (key, value) ∷ remove key entries

  unfoldable pub values : List (ℕ × A) → List A
  values [] = []
  values ((k, a) ∷ entries) = a ∷ values entries
