-- ===== src/Script/Closure.antt =====
-- `fragment_scripts` of src/script.rs ends, and with its fragments every event leads to a script.
use mathlib.Core.List.{append-nil, append_assoc}
use brawllib_rs.Prelude.{
  ℕ, zero, suc, ◌^◌, ◌<◌, ◌≡◌, refl, sym, Bool, true, false, List, [], ◌∷◌, ◌++◌, All, All-append,
  All-mono, Option, none, some, if◌then◌else◌, arith,
}
use brawllib_rs.Outcome.{Ends, Outcome, ok, panic, Post-ok, returns, panics}
use brawllib_rs.Bytes.{Bytes}
use brawllib_rs.Bytes.Words.{IsBytes}
use brawllib_rs.Slice.{FancySlice}
use brawllib_rs.WiiMemory.{WiiMemory}
use brawllib_rs.WiiMemory.View.{IsWii}
use brawllib_rs.Script.Argument.{Script}
use brawllib_rs.Script.ReadLaws.{IsEvent}
use brawllib_rs.Script.Fragments.{
  found_offset, any_offset, is_action, script_events, all_events, fragment_scripts,
}
use brawllib_rs.Script.FragmentLaws.{
  reaches, IsFragment, IsReached, Collected, any_offset-append, any_offset-head, is_action-append,
  collect-Ends,
}
use brawllib_rs.Script.Missing.{missing, missing-le, missing-lt}

or_assoc :
    (a b c : Bool)
    → (if (if a then true else b) then true else c) ≡ (if a then true else (if b then true else c))
or_assoc true b c = refl
or_assoc false b c = refl

or-false : (a b : Bool) → (if a then true else b) ≡ false → a ≡ false
or-false true b h = h
or-false false b h = refl

module _ {F : Type 0} where
  script_events-append :
      (xs ys : List (Script F)) → script_events (xs ++ ys) ≡ script_events xs ++ script_events ys
  script_events-append [] ys = refl
  script_events-append (x ∷ xs) ys =
      rw (script_events-append xs ys)
        (sym (append_assoc x.events (script_events xs) (script_events ys)))

  all_events-append :
      (known : List (List (Script F))) (ss : List (Script F))
      → all_events (known ++ ss ∷ []) ≡ all_events known ++ script_events ss
  all_events-append [] ss = append-nil (script_events ss)
  all_events-append (xs ∷ known) ss =
      rw (all_events-append known ss)
        (sym (append_assoc (script_events xs) (all_events known) (script_events ss)))

  fragments-IsEvents :
      (known : List (List (Script F))) (ss : List (Script F))
      → All (IsFragment known) ss
      → All IsEvent (script_events ss)
  fragments-IsEvents known [] h = tt
  fragments-IsEvents known (s ∷ ss) h =
      All-append IsEvent s.events (script_events ss) h.0.2 (fragments-IsEvents known ss h.1)

  module _ (known : List (List (Script F))) (ss : List (Script F)) where
    -- The scripts of a later call, seen from the earlier one.
    IsReached-append :
        (inner : List (Script F)) (found : Option ℕ)
        → IsReached (known ++ ss ∷ []) inner found
        → IsReached known (ss ++ inner) found
    IsReached-append inner none h = tt
    IsReached-append inner (some o) h =
        let either : (if reaches known ss o then true else any_offset inner o) ≡ true =
          rw (← is_action-append known ss o) h in
        rw (any_offset-append ss inner o, ← or_assoc) either

    IsFragment-append : (s : Script F) → IsFragment (known ++ ss ∷ []) s → IsFragment known s
    IsFragment-append s h =
        let new : reaches known ss s.offset ≡ false =
          rw (← is_action-append known ss s.offset) (h.0) in
        (or-false _ _ new, h.1, h.2)

  -- The fragments found are new, and with them every event leads to a script, those of the
  -- fragments too.
  abbrev pub IsClosed : (ignore : List ℕ) → List (List (Script F)) → List (Script F) → Type 0
  IsClosed ignore known fragments =
      All (IsFragment known) fragments
      × All (λ e. IsReached known fragments (found_offset ignore e))
          (all_events known ++ script_events fragments)

  IsClosed-append :
      (ignore : List ℕ) (known : List (List (Script F))) (ss inner : List (Script F))
      → All (IsFragment known) ss
      → IsClosed ignore (known ++ ss ∷ []) inner
      → IsClosed ignore known (ss ++ inner)
  IsClosed-append ignore known ss inner wf (new, leads) =
      let new' = All-mono inner (IsFragment-append known ss) new in
      let same : all_events (known ++ ss ∷ []) ++ script_events inner
          ≡ all_events known ++ script_events (ss ++ inner) =
        rw (all_events-append known ss, script_events-append ss inner)
          (append_assoc (all_events known) (script_events ss) (script_events inner)) in
      (
        All-append (IsFragment known) ss inner wf new',
        rw (← same)
            (All-mono _ (λ e. IsReached-append known ss inner (found_offset ignore e)) leads),
      )

module _ (fs : FancySlice) {F : Type 0} (scalar_of : ℕ → F) (parent_data : Bytes)
    (wii_memory : WiiMemory) (parent_bytes : IsBytes parent_data) (wii : IsWii wii_memory)
    (ignore : List ℕ) where
  -- The recursive call, as an induction gives it.
  abbrev Closes : ℕ → Type 0
  Closes fuel =
      (known : List (List (Script F)))
      → All IsEvent (all_events known)
      → missing (2 ^ 32) known < fuel
      → Ends (IsClosed ignore known)
          (fragment_scripts fs scalar_of parent_data wii_memory ignore fuel known)

  -- What follows the loops over the events, once these have given their fragments.
  inner-Ends :
      (fuel : ℕ) (known : List (List (Script F))) (f : Script F) (fragments : List (Script F))
      → Closes fuel
      → All IsEvent (all_events known)
      → missing (2 ^ 32) known < suc fuel
      → All (IsFragment known) (f ∷ fragments)
      → Ends
          (IsClosed ignore known)
          (elim (fragment_scripts fs scalar_of parent_data wii_memory ignore fuel
            (known ++ (f ∷ fragments) ∷ [])) [
              | none ↦ none
              | some panic ↦ some panic
              | some (ok inner) ↦ some (ok ((f ∷ fragments) ++ inner))
            ])
  inner-Ends fuel known f fragments later events enough wf =
      let known' = known ++ (f ∷ fragments) ∷ [] in
      let grows : (o : ℕ) → is_action known o ≡ true → is_action known' o ≡ true =
        λ o h. rw (is_action-append known (f ∷ fragments) o, h) refl in
      let now : is_action known' f.offset ≡ true =
        rw (is_action-append known (f ∷ fragments) f.offset, wf.0.0)
          (any_offset-head f fragments) in
      let less = missing-lt known known' grows f.offset (2 ^ 32) (wf.0.1) (wf.0.0) now in
      let events' : All IsEvent (all_events known') = rw (all_events-append known (f ∷ fragments)) (
        All-append IsEvent (all_events known) (script_events (f ∷ fragments)) events
          (fragments-IsEvents known (f ∷ fragments) wf)) in
      after (later known' events' (omega (arith, less)))
    where
      after :
          {result : Option (Outcome (List (Script F)))}
          → Ends (IsClosed ignore (known ++ (f ∷ fragments) ∷ [])) result
          → Ends (IsClosed ignore known) (elim result [
            | none ↦ none
            | some panic ↦ some panic
            | some (ok inner) ↦ some (ok ((f ∷ fragments) ++ inner))
          ])
      after (panic, e, h) = rw e (panic, refl, panics)
      after (ok inner, e, h) =
          rw e (
            ok _,
            refl,
            returns (IsClosed-append ignore known (f ∷ fragments) inner wf (Post-ok h)),
          )

  -- What follows the loops over the events.
  Collected-Ends :
      (fuel : ℕ) (known : List (List (Script F)))
      → Closes fuel
      → All IsEvent (all_events known)
      → missing (2 ^ 32) known < suc fuel
      → {result : Option (Outcome (List (Script F)))}
      → Ends (Collected ignore known (all_events known) []) result
      → Ends (IsClosed ignore known) (elim result [
        | none ↦ none
        | some panic ↦ some panic
        | some (ok []) ↦ some (ok [])
        | some (ok (f ∷ fragments)) ↦
            elim (fragment_scripts fs scalar_of parent_data wii_memory ignore fuel
              (known ++ (f ∷ fragments) ∷ [])) [
                | none ↦ none
                | some panic ↦ some panic
                | some (ok inner) ↦ some (ok ((f ∷ fragments) ++ inner))
              ]
      ])
  Collected-Ends fuel known later events enough (panic, e, h) = rw e (panic, refl, panics)
  Collected-Ends fuel known later events enough (ok [], e, h) =
      rw e (ok [], refl, returns (tt, rw (append-nil) ((Post-ok h).2)))
  Collected-Ends fuel known later events enough (ok (f ∷ fragments), e, h) =
      rw e (inner-Ends fuel known f fragments later events enough ((Post-ok h).0))

  closes : (fuel : ℕ) → Closes fuel
  unfolding fragment_scripts
  closes zero known events enough = absurd (omega arith)
  closes (suc fuel) known events enough = Collected-Ends fuel known (closes fuel) events enough (
      collect-Ends fs scalar_of parent_data wii_memory parent_bytes wii ignore known
        (all_events known) events [] tt)

  -- With 2 ^ 32 + 1 calls or more, one for every offset and one more, `fragment_scripts` ends. If
  -- it does not panic, its fragments are at offsets without a script before, and every event of
  -- the known scripts and of the fragments that leads to an offset leads to that of a known script
  -- or of a fragment.
  pub fragment_scripts-Ends :
      (fuel : ℕ) (known : List (List (Script F)))
      → All IsEvent (all_events known)
      → 2 ^ 32 < fuel
      → Ends
          (IsClosed ignore known)
          (fragment_scripts fs scalar_of parent_data wii_memory ignore fuel known)
  fragment_scripts-Ends fuel known events enough =
      closes fuel known events (omega (arith, missing-le (2 ^ 32) known))
