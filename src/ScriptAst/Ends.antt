-- ===== src/ScriptAst/Ends.antt =====
-- `process_block` of src/script_ast/mod.rs ends, at every depth of nesting, and panics only on an event
-- whose own arm panics.
use brawllib_rs.Prelude.{
  ℕ, zero, suc, ◌≤◌, ◌<◌, ◌≡◌, refl, Option, none, some, List, [], ◌∷◌, length, All, arith,
}
use brawllib_rs.Outcome.{Outcome, ok, panic, Post, Post-ok, Post-mono, returns, panics}
use brawllib_rs.Script.Argument.{Event, Script}
use brawllib_rs.ScriptAst.Tree.{
  Block, push, ProcessedBlock, finished, end_for_loop, end_if, ScriptAst,
}
use brawllib_rs.ScriptAst.Arms.{
  Opener, Nesting, plain, opens, end_loop, end_condition, nesting_of, event_ast,
}
use brawllib_rs.ScriptAst.Parse.{
  Exit, go, leave, close_block, Processed, process_events, process_block, finished_block,
  script_ast,
}

-- A value is returned, and it satisfies `P`.
abbrev pub Returns {ℓ} : {A : Type ℓ} → (A → Type 0) → Option (Outcome A) → Type ℓ
Returns P r = (v : _) × (r ≡ some (ok v)) × P v

module _ {F : Type 0} (as_f32 : ℕ → F) where
  abbrev pub IsSafe : Event F → Type 0
  IsSafe event = (e : _) × (event_ast as_f32 event ≡ ok e)

  -- The result of a call on `events`: fewer events are left, unless it ended with none.
  module _ (events : List (Event F)) where
    abbrev pub Leaves : ProcessedBlock F × List (Event F) → Type 0
    Leaves (r, rest) = (length rest ≤ length events) × (All IsSafe events → All IsSafe rest)

    abbrev pub Settles : Processed as_f32 → Type 0
    Settles r =
        (x : Outcome (ProcessedBlock F × List (Event F))) × (r ≡ some x)
        × Post Leaves x
        × (All IsSafe events → (v : _) × (x ≡ ok v))

  abbrev Later : ℕ → Type 0
  Later fuel =
      (events : List (Event F)) (event_asts : Block F)
      → length events < fuel
      → Settles events (process_events as_f32 fuel events event_asts)

  module _ (event : Event F) (events : List (Event F)) (fuel : ℕ) (event_asts : Block F)
      (later : Later fuel) (enough : length events < fuel) where
    -- What a call on fewer events returns is what this call returns.
    Settles-cons : {r : Processed as_f32} → Settles events r → Settles (event ∷ events) r
    Settles-cons (x, e, inside, safe) = (
      x,
      e,
      Post-mono inside λ v leaves. (omega (arith, leaves.0), λ all. leaves.1 all.1),
      λ all. safe all.1,
    )

    Settles-rest :
        (rest : List (Event F)) (r : ProcessedBlock F) {result : Processed as_f32}
        → Leaves events (r, rest)
        → Settles rest result
        → Settles (event ∷ events) result
    Settles-rest rest r (fewer, kept) (x, e, inside, safe) = (
      x,
      e,
      Post-mono inside λ v leaves. (omega (arith, fewer, leaves.0), λ all. leaves.1 (kept all.1)),
      λ all. safe (kept all.1),
    )

    plain-Settles :
        (x : Outcome _)
        → event_ast as_f32 event ≡ x
        → Settles (event ∷ events) (elim x [
          | panic ↦ some panic
          | ok e ↦ process_events as_f32 fuel events (push event_asts e)
        ])
    plain-Settles panic eq = (panic, refl, panics, λ all. let e = all.0 in absurd cc)
    plain-Settles (ok e) eq = Settles-cons (later events (push event_asts e) enough)

    exit-Settles :
        (x : Exit F) (r : ProcessedBlock F) (rest : List (Event F))
        → Leaves events (r, rest)
        → Settles (event ∷ events) (elim x [
          | go event_asts' ↦ process_events as_f32 fuel rest event_asts'
          | leave r ↦ some (ok (r, rest))
        ])
    exit-Settles (go event_asts') r rest leaves =
        Settles-rest rest r leaves (later rest event_asts' (omega (arith, leaves.0, enough)))
    exit-Settles (leave s) r rest leaves = (
      ok (s, rest),
      refl,
      returns (omega (arith, leaves.0), λ all. leaves.1 all.1),
      λ all. ((s, rest), refl),
    )

    nest-Settles :
        (o : Opener F) (inner : Processed as_f32)
        → Settles events inner
        → Settles (event ∷ events) (elim inner [
          | none ↦ none
          | some panic ↦ some panic
          | some (ok (inner, rest)) ↦ elim (close_block event event_asts o inner) [
            | go event_asts' ↦ process_events as_f32 fuel rest event_asts'
            | leave r ↦ some (ok (r, rest))
          ]
        ])
    nest-Settles o inner (panic, e, inside, safe) =
        rw e (panic, refl, panics, λ all. let (v, same) = safe all.1 in absurd cc)
    nest-Settles o inner (ok (r, rest), e, inside, safe) =
        rw e (exit-Settles (close_block event event_asts o r) r rest (Post-ok inside))

    nesting-Settles :
        (n : Nesting F)
        → Settles (event ∷ events) (elim n [
          | plain ↦ elim (event_ast as_f32 event) [
            | panic ↦ some panic
            | ok e ↦ process_events as_f32 fuel events (push event_asts e)
          ]
          | opens o ↦ elim (process_events as_f32 fuel events Block.empty) [
            | none ↦ none
            | some panic ↦ some panic
            | some (ok (inner, rest)) ↦ elim (close_block event event_asts o inner) [
              | go event_asts' ↦ process_events as_f32 fuel rest event_asts'
              | leave r ↦ some (ok (r, rest))
            ]
          ]
          | end_loop ↦ some (ok (end_for_loop event_asts, events))
          | end_condition ↦ some (ok (end_if event_asts, events))
        ])
    nesting-Settles plain = plain-Settles _ refl
    nesting-Settles (opens o) = nest-Settles o _ (later events Block.empty enough)
    nesting-Settles end_loop = (_, refl, returns (omega arith, λ all. all.1), λ all. (_, refl))
    nesting-Settles end_condition = (_, refl, returns (omega arith, λ all. all.1), λ all. (_, refl))

  process_events-Settles : (fuel : ℕ) → Later fuel
  unfolding process_events
  process_events-Settles zero events event_asts enough = absurd (omega arith)
  process_events-Settles (suc fuel) [] event_asts enough = (
    ok (finished event_asts, []),
    refl,
    returns (omega arith, λ all. all),
    λ all. ((finished event_asts, []), refl),
  )
  process_events-Settles (suc fuel) (event ∷ events) event_asts enough =
      nesting-Settles event events fuel event_asts (process_events-Settles fuel) (omega arith)
        (nesting_of event)

  -- `process_block` ends on every list of events, at every depth of nesting.
  pub process_block-Settles :
      (events : List (Event F)) → Settles events (process_block as_f32 events)
  unfolding process_block
  process_block-Settles events =
      process_events-Settles (suc (length events)) events Block.empty (omega arith)

  script_ast_of :
      (script : Script F) (r : Processed as_f32)
      → Settles script.events r
      → All IsSafe script.events
      → Returns
          (λ (ast : ScriptAst F). ast.offset ≡ script.offset)
          (elim r [
            | none ↦ none
            | some panic ↦ some panic
            | some (ok (r, rest)) ↦
                some (ok (record { block = finished_block as_f32 r; offset = script.offset }))
          ])
  script_ast_of script r (panic, e, inside, safe) all = let (v, same) = safe all in absurd cc
  script_ast_of script r (ok v, e, inside, safe) all = rw e (_, refl, refl)

  -- The tree of a script is made without a panic if the arm of each of its events makes an event
  -- without one, however the events are nested. It has the offset of the script.
  pub script_ast-Returns :
      (script : Script F)
      → All IsSafe script.events
      → Returns (λ (ast : ScriptAst F). ast.offset ≡ script.offset) (script_ast as_f32 script)
  unfolding script_ast
  script_ast-Returns script all = script_ast_of script _ (process_block-Settles script.events) all
