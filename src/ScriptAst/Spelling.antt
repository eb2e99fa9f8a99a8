-- ===== src/ScriptAst/Spelling.antt =====
-- The loop of `process_block` of src/script_ast/mod.rs makes the tree that its events spell.
use brawllib_rs.Prelude.{
  ℕ, zero, suc, ◌≤◌, ◌<◌, ◌≡◌, refl, ap, ◌∙◌, sym, some, List, [], ◌∷◌, length, arith,
}
use brawllib_rs.Outcome.{ok}
use brawllib_rs.Script.Argument.{Event, Script}
use brawllib_rs.ScriptAst.Expression.{Expression}
use brawllib_rs.ScriptAst.Tree.{
  EventAst, Block, ElseBranch, no_else, else_block, push, ProcessedBlock, end_for_loop, end_if,
  end_if_and_else,
}
use brawllib_rs.ScriptAst.Arms.{
  Opener, plain, opens, end_loop, end_condition, nesting_of, event_ast,
}
use brawllib_rs.ScriptAst.Grammar.{
  Spells, done, event, for_loop, if_statement, Branches, no_more, otherwise, otherwise_if,
}
use brawllib_rs.ScriptAst.Parse.{
  go, leave, close_block, process_events, process_block, finished_block, script_ast,
}

-- The block of the events so far and those that follow.
abbrev append : {F : Type 0} → Block F → Block F → Block F
append Block.empty b = b
append (Block.cons e a) b = Block.cons e (append a b)

append-push :
    {F : Type 0} (a : Block F) (e : EventAst F) (b : Block F)
    → append (push a e) b ≡ append a (Block.cons e b)
unfolding push
append-push Block.empty e b = refl
append-push (Block.cons x a) e b = ap (Block.cons x) (append-push a e b)

append-empty : {F : Type 0} (a : Block F) → append a Block.empty ≡ a
append-empty Block.empty = refl
append-empty (Block.cons x a) = ap (Block.cons x) (append-empty a)

-- What a call returns on the branches of a condition.
abbrev result : {F : Type 0} → Block F → ElseBranch F → ProcessedBlock F
result body no_else = end_if body
result body (else_block other) = end_if_and_else body (else_block other)

module _ {F : Type 0} (as_f32 : ℕ → F) where
  -- A round of the loop, by the nesting of its event.
  module _ (event : Event F) (events : List (Event F)) (fuel : ℕ) (event_asts : Block F) where
    plain_round :
        (e : EventAst F)
        → nesting_of event ≡ plain
        → event_ast as_f32 event ≡ ok e
        → process_events as_f32 (suc fuel) (event ∷ events) event_asts
          ≡ process_events as_f32 fuel events (push event_asts e)
    unfolding process_events
    plain_round e n a = rw (n, a, process_events) refl

    end_loop_round :
        nesting_of event ≡ end_loop
        → process_events as_f32 (suc fuel) (event ∷ events) event_asts
          ≡ some (ok (end_for_loop event_asts, events))
    unfolding process_events
    end_loop_round n = rw (n, process_events) refl

    end_condition_round :
        nesting_of event ≡ end_condition
        → process_events as_f32 (suc fuel) (event ∷ events) event_asts
          ≡ some (ok (end_if event_asts, events))
    unfolding process_events
    end_condition_round n = rw (n, process_events) refl

    module _ (o : Opener F) (inner : ProcessedBlock F) (rest : List (Event F))
        (n : nesting_of event ≡ opens o)
        (read : process_events as_f32 fuel events Block.empty ≡ some (ok (inner, rest))) where
      go_round :
          (event_asts' : Block F)
          → close_block event event_asts o inner ≡ go event_asts'
          → process_events as_f32 (suc fuel) (event ∷ events) event_asts
            ≡ process_events as_f32 fuel rest event_asts'
      unfolding process_events
      go_round event_asts' c = rw (n, read, c, process_events) refl

      leave_round :
          (r : ProcessedBlock F)
          → close_block event event_asts o inner ≡ leave r
          → process_events as_f32 (suc fuel) (event ∷ events) event_asts ≡ some (ok (r, rest))
      unfolding process_events
      leave_round r c = rw (n, read, c, process_events) refl

  -- The loop goes on after the events of a block with that block added.
  abbrev Reads : ℕ → List (Event F) → Block F → Block F → List (Event F) → Type 0
  Reads fuel events event_asts block after =
      (fuel' : ℕ) × (length after < suc fuel')
      × (length after ≤ length events)
      × (process_events as_f32 fuel events event_asts
          ≡ process_events as_f32 (suc fuel') after (append event_asts block))

  abbrev Ends : ℕ → List (Event F) → Block F → ElseBranch F → List (Event F) → Type 0
  Ends fuel events body other after =
      (length after < length events)
      × (process_events as_f32 fuel events Block.empty ≡ some (ok (result body other, after)))

  closes :
      (first : Event F) (event_asts : Block F) (t : Expression F) (body : Block F)
      (other : ElseBranch F)
      → close_block first event_asts (Opener.condition t) (result body other)
        ≡ go (push event_asts (EventAst.if_statement t body other))
  unfolding close_block
  closes first event_asts t body no_else = refl
  closes first event_asts t body (else_block other) = refl

  closes_if :
      (first : Event F) (event_asts : Block F) (t : Expression F) (body : Block F)
      (other : ElseBranch F)
      → close_block first event_asts (Opener.otherwise_if t) (result body other)
        ≡ leave (
            end_if_and_else event_asts
              (else_block (Block.cons (EventAst.if_statement t body other) Block.empty)))
  unfolding close_block
  closes_if first event_asts t body no_else = refl
  closes_if first event_asts t body (else_block other) = refl

  -- An else with its block, and an else-if with its branches.
  Otherwise-Ends :
      (middle last : Event F) (more after : List (Event F)) {other : Block F}
      → ((k : ℕ) → length more < suc k → Reads (suc k) more Block.empty other (last ∷ after))
      → nesting_of middle ≡ opens Opener.otherwise
      → nesting_of last ≡ end_condition
      → (fuel : ℕ) (b : Block F) → length more < fuel
      → (length after < length more)
        × (process_events as_f32 (suc fuel) (middle ∷ more) b
            ≡ some (ok (end_if_and_else b (else_block other), after)))
  unfolding close_block
  Otherwise-Ends middle last more after reads m l zero b enough = absurd (omega arith)
  Otherwise-Ends middle last more after {other} reads m l (suc fuel) b enough =
      let (k, room, fewer, eq) = reads fuel enough in
      (
        omega (arith, fewer),
        leave_round middle more (suc fuel) b Opener.otherwise (end_if other) after m
            (eq ∙ end_condition_round last after k other l) (end_if_and_else b (else_block other))
            refl,
      )

  Otherwise_if-Ends :
      (middle : Event F) (t : Expression F) (more after : List (Event F)) {body : Block F}
      {other : ElseBranch F}
      → ((k : ℕ) → length more < suc k → Ends (suc k) more body other after)
      → nesting_of middle ≡ opens (Opener.otherwise_if t)
      → (fuel : ℕ) (b : Block F) → length more < fuel
      → (length after < length more)
        × (process_events as_f32 (suc fuel) (middle ∷ more) b
            ≡ some (
                ok (
                  end_if_and_else b
                      (else_block (Block.cons (EventAst.if_statement t body other) Block.empty)),
                  after,
                )))
  Otherwise_if-Ends middle t more after ends m zero b enough = absurd (omega arith)
  Otherwise_if-Ends middle t more after {body} {other} ends m (suc fuel) b enough =
      let (used, read) = ends fuel enough in
      (
        used,
        leave_round middle more (suc fuel) b (Opener.otherwise_if t) (result body other) after m
            read
            (end_if_and_else b
              (else_block (Block.cons (EventAst.if_statement t body other) Block.empty)))
            (closes_if middle b t body other),
      )

  mutual
    unfolding close_block

    Spells-Reads :
        {events after : List (Event F)} {block : Block F}
        → Spells as_f32 events block after
        → (fuel : ℕ) (event_asts : Block F) → length events < suc fuel
        → Reads (suc fuel) events event_asts block after
    Spells-Reads (done {events}) fuel event_asts enough = (
      fuel,
      enough,
      omega arith,
      ap (process_events as_f32 (suc fuel) events) (sym (append-empty event_asts)),
    )
    Spells-Reads (event n a rest) zero event_asts enough = absurd (omega arith)
    Spells-Reads (event {first} {e} {events} {after} {block} n a rest) (suc fuel) event_asts
          enough =
        let (k, room, fewer, eq) = Spells-Reads rest fuel (push event_asts e) (omega arith) in
        (
          k,
          room,
          omega (arith, fewer),
          plain_round first events (suc fuel) event_asts e n a
              ∙ eq
              ∙ ap (process_events as_f32 (suc k) after) (append-push event_asts e block),
        )
    Spells-Reads (for_loop n body l rest) zero event_asts enough = absurd (omega arith)
    Spells-Reads
          (for_loop {first} {last} {n = count} {events} {more} {after} {body = b} {block} n body l
            rest)
          (suc fuel) event_asts enough =
        let (j, _, used, read) = Spells-Reads body fuel Block.empty (omega arith) in
        let e = EventAst.for_loop count b in
        let (k, room, fewer, eq) =
          Spells-Reads rest fuel (push event_asts e) (omega (arith, enough, used)) in
        (
          k,
          room,
          omega (arith, fewer, used),
          go_round first events (suc fuel) event_asts (Opener.loop count) (end_for_loop b) more n
                (read ∙ end_loop_round last more j b l) (push event_asts e) refl
              ∙ eq
              ∙ ap (process_events as_f32 (suc k) after) (append-push event_asts e block),
        )
    Spells-Reads (if_statement n body rest) zero event_asts enough = absurd (omega arith)
    Spells-Reads
          (if_statement {first} {t} {events} {more} {after} {body = b} {block} {other} n body rest)
          (suc fuel) event_asts enough =
        let (used, read) = Branches-Ends body fuel (omega arith) in
        let e = EventAst.if_statement t b other in
        let (k, room, fewer, eq) =
          Spells-Reads rest fuel (push event_asts e) (omega (arith, enough, used)) in
        (
          k,
          room,
          omega (arith, fewer, used),
          go_round first events (suc fuel) event_asts (Opener.condition t) (result b other) more n
                read (push event_asts e) (closes first event_asts t b other)
              ∙ eq
              ∙ ap (process_events as_f32 (suc k) after) (append-push event_asts e block),
        )

    Branches-Ends :
        {events after : List (Event F)} {body : Block F} {other : ElseBranch F}
        → Branches as_f32 events body other after
        → (fuel : ℕ) → length events < suc fuel
        → Ends (suc fuel) events body other after
    Branches-Ends (no_more {last} {events} {after} {body = b} body l) fuel enough =
        let (k, room, fewer, eq) = Spells-Reads body fuel Block.empty enough in
        (omega (arith, fewer), eq ∙ end_condition_round last after k b l)
    Branches-Ends
          (otherwise {middle} {last} {events} {more} {after} {body = b} {other = o} body m other l)
          fuel enough =
        let (k, room, fewer, eq) = Spells-Reads body fuel Block.empty enough in
        let (used, read) =
          Otherwise-Ends middle last more after (λ j. Spells-Reads other j Block.empty) m l k b
            (omega (arith, room)) in
        (omega (arith, fewer, used), eq ∙ read)
    Branches-Ends
          (otherwise_if {middle} {t} {events} {more} {after} {body = b} {body' = c} {other = o} body
            m other)
          fuel enough =
        let (k, room, fewer, eq) = Spells-Reads body fuel Block.empty enough in
        let (used, read) =
          Otherwise_if-Ends middle t more after (Branches-Ends other) m k b (omega (arith, room)) in
        (omega (arith, fewer, used), eq ∙ read)

  -- If the events of a script are those of a block in the grammar of nested loops and conditions,
  -- none left over, then `ScriptAst::new` returns that block, with the offset of the script.
  pub script_ast-Spells :
      (script : Script F) {block : Block F}
      → Spells as_f32 script.events block []
      → script_ast as_f32 script ≡ some (ok (record { block = block; offset = script.offset }))
  unfolding script_ast process_block process_events finished_block
  script_ast-Spells script {block} spelled =
      let (k, room, fewer, eq) =
        Spells-Reads spelled (length script.events) Block.empty (omega arith) in
      rw (eq, script_ast) refl
