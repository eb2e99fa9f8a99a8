-- ===== src/Script/FragmentLaws.antt =====
-- What one call of `fragment_scripts` of src/script.rs collects: a script for every offset that the
-- events lead to and that is not yet known.
use brawllib_rs.Prelude.{
  ℕ, ◌^◌, ◌<◌, ◌≡◌, refl, inl, inr, Bool, true, false, not, ◌&&◌, List, [], ◌∷◌, ◌++◌, All,
  All-append, Option, none, some, Bool-cases, ◌==◌, if◌then◌else◌, arith,
}
use brawllib_rs.Outcome.{Ends, Outcome, ok, panic, Post-ok, Post-mono, returns, panics}
use brawllib_rs.Bytes.{Bytes}
use brawllib_rs.Bytes.Words.{IsBytes}
use brawllib_rs.Slice.{FancySlice}
use brawllib_rs.WiiMemory.{WiiMemory}
use brawllib_rs.WiiMemory.View.{IsWii}
use brawllib_rs.Script.Argument.{Event, Script}
use brawllib_rs.Script.Read.{new_script}
use brawllib_rs.Script.ReadLaws.{IsEvent, IsScript}
use brawllib_rs.Script.ReadEnds.{new_script-Ends}
use brawllib_rs.Script.Found.{IsFound, found, found_offset-IsFound}
use brawllib_rs.Script.Fragments.{found_offset, any_offset, is_action, collect}

module _ {F : Type 0} where
  -- An offset is that of a script of one of the lists.
  abbrev pub reaches : List (List (Script F)) → List (Script F) → ℕ → Bool
  reaches known ss o = if is_action known o then true else any_offset ss o

  -- A fragment is new, and well formed.
  abbrev pub IsFragment : List (List (Script F)) → Script F → Type 0
  IsFragment known s =
      (is_action known s.offset ≡ false) × (s.offset < 2 ^ 32) × All IsEvent s.events

  pub any_offset-append :
      (xs ys : List (Script F)) (o : ℕ)
      → any_offset (xs ++ ys) o ≡ (if any_offset xs o then true else any_offset ys o)
  unfolding any_offset
  any_offset-append [] ys o = refl
  any_offset-append (x ∷ xs) ys o = elim (Bool-cases (x.offset == o)) [
    | inl h ↦ rw h refl
    | inr h ↦ rw h (any_offset-append xs ys o)
  ]

  pub is_action-append :
      (known : List (List (Script F))) (ss : List (Script F)) (o : ℕ)
      → is_action (known ++ ss ∷ []) o ≡ reaches known ss o
  unfolding is_action
  is_action-append [] ss o = elim (Bool-cases (any_offset ss o)) [
    | inl h ↦ rw h refl
    | inr h ↦ rw h refl
  ]
  is_action-append (xs ∷ known) ss o = elim (Bool-cases (any_offset xs o)) [
    | inl h ↦ rw h refl
    | inr h ↦ rw h (is_action-append known ss o)
  ]

  -- An offset that was found, if one was, is that of a script.
  abbrev pub IsReached : List (List (Script F)) → List (Script F) → Option ℕ → Type 0
  IsReached known ss none = Unit
  IsReached known ss (some o) = reaches known ss o ≡ true

  -- What the loops over events make of the fragments so far.
  abbrev pub Collected :
      (ignore : List ℕ)
      → List (List (Script F))
      → List (Event F)
      → (before after : List (Script F)) → Type 0
  Collected ignore known events before after =
      All (IsFragment known) after
      × ((o : ℕ) → any_offset before o ≡ true → any_offset after o ≡ true)
      × All (λ e. IsReached known after (found_offset ignore e)) events

  pub any_offset-head : (s : Script F) (ss : List (Script F)) → any_offset (s ∷ ss) s.offset ≡ true
  unfolding any_offset
  any_offset-head s ss = ground arith

  -- A fragment that is added for an offset is found at it.
  any_offset-snoc :
      (ss : List (Script F)) (s : Script F) → any_offset (ss ++ s ∷ []) s.offset ≡ true
  unfolding any_offset
  any_offset-snoc ss s =
      let here : any_offset (s ∷ []) s.offset ≡ true = ground arith in
      rw (any_offset-append ss (s ∷ []) s.offset, here)
        (elim (Bool-cases (any_offset ss s.offset)) [ inl h ↦ rw h refl | inr h ↦ rw h refl ])

  any_offset-more :
      (ss more : List (Script F)) (o : ℕ)
      → any_offset ss o ≡ true
      → any_offset (ss ++ more) o ≡ true
  any_offset-more ss more o h = rw (any_offset-append ss more o, h) refl

module _ (fs : FancySlice) {F : Type 0} (scalar_of : ℕ → F) (parent_data : Bytes)
    (wii_memory : WiiMemory) (parent_bytes : IsBytes parent_data) (wii : IsWii wii_memory)
    (ignore : List ℕ) (known : List (List (Script F))) where
  abbrev Collects : List (Event F) → Type 0
  Collects events =
      (before : List (Script F))
      → All (IsFragment known) before
      → Ends (Collected ignore known events before)
          (collect fs scalar_of parent_data wii_memory ignore known events before)

  -- An offset that is not known: its script is read.
  new-Ends :
      (events : List (Event F)) (before : List (Script F)) (o : ℕ)
      → Collects events
      → All (IsFragment known) before
      → o < 2 ^ 32
      → is_action known o ≡ false
      → {result : Option (Outcome (Script F))} → Ends (IsScript o) result
      → Ends
          (λ after. Collected ignore known events before after × (any_offset after o ≡ true))
          (elim result [
            | none ↦ none
            | some panic ↦ some panic
            | some (ok script) ↦
                collect fs scalar_of parent_data wii_memory ignore known events
                  (before ++ script ∷ [])
          ])
  new-Ends events before o later wf small new (panic, e, h) = rw e (panic, refl, panics)
  new-Ends events before o later wf small new (ok script, e, h) =
      let (at_o, events_wf) = Post-ok h in
      let is_new : IsFragment known script = rw at_o (new, small, events_wf) in
      let wf' = All-append (IsFragment known) before (script ∷ []) wf (is_new, tt) in
      let (r, ends, collected) = later (before ++ script ∷ []) wf' in
      rw e (
        r,
        ends,
        Post-mono collected λ after c.
            let here : any_offset (before ++ script ∷ []) o ≡ true =
              rw (← at_o) (any_offset-snoc before script) in
            ((c.0, (λ o' k. c.1 o' (any_offset-more before (script ∷ []) o' k)), c.2), c.1 o here),
      )

  -- One event.
  event-Ends :
      (events : List (Event F)) (before : List (Script F)) (found : Option ℕ)
      → Collects events
      → All (IsFragment known) before
      → IsFound found
      → Ends
          (λ after. Collected ignore known events before after × IsReached known after found)
          (elim found [
            | none ↦ collect fs scalar_of parent_data wii_memory ignore known events before
            | some o ↦ elim (not (is_action known o) && not (any_offset before o)) [
              | false ↦ collect fs scalar_of parent_data wii_memory ignore known events before
              | true ↦ elim (new_script fs scalar_of parent_data o wii_memory) [
                | none ↦ none
                | some panic ↦ some panic
                | some (ok script) ↦
                    collect fs scalar_of parent_data wii_memory ignore known events
                      (before ++ script ∷ [])
              ]
            ]
          ])
  event-Ends events before none later wf small =
      let (r, ends, collected) = later before wf in
      (r, ends, Post-mono collected λ after c. (c, tt))
  event-Ends events before (some o) later wf (found small) = elim (Bool-cases (is_action known o)) [
    | inl h ↦
        let (r, ends, collected) = later before wf in
        rw h (r, ends, Post-mono collected λ after c. (c, refl))
    | inr h ↦ elim (Bool-cases (any_offset before o)) [
      | inl k ↦
          let (r, ends, collected) = later before wf in
          rw (h, k) (r, ends, Post-mono collected λ after c. (c, c.1 o k))
      | inr k ↦
          let (r, ends, collected) =
            new-Ends events before o later wf small h
              (new_script-Ends fs parent_data wii_memory parent_bytes wii scalar_of o) in
          rw (h, k) (r, ends, Post-mono collected λ after c. (c.0, c.1))
    ]
  ]

  pub collect-Ends : (events : List (Event F)) → All IsEvent events → Collects events
  unfolding collect
  collect-Ends [] h before wf = (ok before, refl, returns (wf, (λ o k. k), tt))
  collect-Ends (event ∷ events) h before wf =
      let (r, ends, collected) =
        event-Ends events before (found_offset ignore event) (collect-Ends events h.1) wf
          (found_offset-IsFound ignore event h.0) in
      (r, ends, Post-mono collected λ after c. (c.0.0, c.0.1, (c.1, c.0.2)))
