-- ===== src/Script/Missing.antt =====
-- How many offsets have no script yet: what every recursive call of `fragment_scripts` in
-- src/script.rs makes smaller.
use brawllib_rs.Prelude.{
  ℕ, zero, suc, ◌≤◌, ◌<◌, ◌≡◌, inl, inr, true, false, List, Bool-cases, ◌==◌, if◌then◌else◌, arith,
}
use brawllib_rs.Script.Argument.{Script}
use brawllib_rs.Script.Fragments.{is_action}

-- The offsets below `n` without a script.
unfoldable pub missing : {F : Type 0} → ℕ → List (List (Script F)) → ℕ
missing zero known = 0
missing (suc n) known = let rest = missing n known in if is_action known n then rest else suc rest

module _ {F : Type 0} where
  pub missing-le : (n : ℕ) (known : List (List (Script F))) → missing n known ≤ n
  unfolding missing
  missing-le zero known = omega arith
  missing-le (suc n) known = elim (Bool-cases (is_action known n)) [
    | inl h ↦ rw h (omega (arith, missing-le n known))
    | inr h ↦ rw h (omega (arith, missing-le n known))
  ]

  module _ (known known' : List (List (Script F)))
      (grows : (o : ℕ) → is_action known o ≡ true → is_action known' o ≡ true) where
    missing_mono : (n : ℕ) → missing n known' ≤ missing n known
    unfolding missing
    missing_mono zero = omega arith
    missing_mono (suc n) = elim (Bool-cases (is_action known n)) [
      | inl h ↦ rw (h, grows n h) (missing_mono n)
      | inr h ↦ elim (Bool-cases (is_action known' n)) [
        | inl k ↦ rw (h, k) (omega (arith, missing_mono n))
        | inr k ↦ rw (h, k) (omega (arith, missing_mono n))
      ]
    ]

    -- A script at an offset that had none leaves fewer without.
    pub missing-lt :
        (o n : ℕ)
        → o < n
        → is_action known o ≡ false
        → is_action known' o ≡ true
        → missing n known' < missing n known
    unfolding missing
    missing-lt o zero inside new now = absurd (omega arith)
    missing-lt o (suc n) inside new now = elim (Bool-cases (o == n)) [
      | inl same ↦
          let at : o ≡ n = ground arith in
          let new' : is_action known n ≡ false = rw (← at) new in
          let now' : is_action known' n ≡ true = rw (← at) now in
          rw (new', now') (omega (arith, missing_mono n))
      | inr other ↦
          let inside' : o < n = ground arith in
          let less = missing-lt o n inside' new now in
          elim (Bool-cases (is_action known n)) [
            | inl h ↦ rw (h, grows n h) less
            | inr h ↦ elim (Bool-cases (is_action known' n)) [
              | inl k ↦ rw (h, k) (omega (arith, less))
              | inr k ↦ rw (h, k) (omega (arith, less))
            ]
          ]
    ]
