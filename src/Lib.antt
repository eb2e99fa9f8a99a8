-- ===== src/Lib.antt =====
-- brawllib_rs: the library that reads and interprets the files of Super Smash Bros. Brawl fighters
-- and of the mods of that game. This development models the parts that load, parse and run WiiRD
-- codesets, the patches that a mod applies to the data of its fighters, the reader of the scripts
-- in that data, the parser that makes a tree of a script, and the runner of such trees.
--
-- `WiirdRunner` is src/wiird_runner.rs: `process` copies a buffer into the memory of a Wii, then
-- interprets a codeset line by line against that memory, and repeats on the buffer what the codes
-- write to its place. It uses `WiiMemory`, src/wii_memory.rs, the two memories of the console with
-- accesses of 1, 2 and 4 bytes, and `Wiird`, src/wiird.rs, whose enums the operands of a line are
-- read into. `Wiird` is also the parser of that file: `wiird_load_txt` and `wiird_load_gct` get
-- the bytes of a codeset from the contents of a file, and `wiird_codes` makes a tree of them,
-- where a test has the block of lines up to its terminator. All stand on `Bytes`, byte slices with
-- the bounds checks of Rust, and on `Outcome`, the result of code that may panic.
--
-- `Script` is src/script.rs: `new_script` reads the events of a script and their arguments from
-- the data of a fighter, or from the memory that a codeset was run on, `scripts` those of a table,
-- and `fragment_scripts` the scripts that the events of others lead to. In `Script/`,
-- `Requirement` and `Argument` have the data, `Read` has `new_script`, and `Fragments` the other
-- two. `VariableAst` is src/script_ast/variable_ast.rs, which gives names to the variables among
-- the arguments.
--
-- `ScriptAst` is src/script_ast/mod.rs: `ScriptAst::new` makes a tree of the events of a script,
-- where a loop and the branches of a condition have blocks of their own. `Kinds`, `Switches`,
-- `HitBoxKinds`, `HitBoxes`, `Effects`, `Expression` and `Tree` have its data. The arms of the
-- match in `process_block` that make one event are one function for each namespace of events, or
-- for each code whose arguments are more than `Shapes` can tell: `ControlArms`, `HitBoxArms`,
-- `CollisionArms`, `StateArms`, `GraphicArms` and `OtherArms`; `Arms` is the match, and `Parse`
-- the loop and its recursive calls. `Grammar` is what a well nested script stands for, said
-- without the loop.
--
-- `ScriptRunner` is src/script_runner.rs, which runs the trees of the scripts of a subaction frame
-- by frame. `Ints`, `Floats`, `Bools` and `Variables` have the variables, a record for each table
-- of `VariableAst`, with `get_variable_int` and the like; `Expressions` has `evaluate_expression`;
-- `CollisionBox`, with the values of src/high_level_fighter.rs, and `HitBoxes` have the seven
-- slots of boxes. The arms of `step_event` are in four groups that act on different fields:
-- `StepVariables`, `HitBoxes`, `StepBody` for the other fields of a fighter, and `StepFlow` for
-- the events that lead to other blocks, with `StepEventResult`. `StepStack` composes them to
-- `step_event` and has the loop of `step_script` over one call stack, `StepScript` a frame of all
-- stacks, `NewState` and `Visibility` what a runner begins with, and `Run` has `new` and `step`.
-- `State` has the data of all of these, and `Maps` the maps with i32 keys.
--
-- What is proved of the runner uses `Stored`, the abstract view of the variables, one value for
-- each, of which `Setters` and `Store` show that the setters are updates; `Work`, a measure of
-- what a call stack has left to do, which `WorkLaws`, `Descent` and `StackEnds` show to go down;
-- and `FrameEnds` and `RunEnds`, which go from a stack to a frame and to a runner. `Frame` is what
-- `new` and the beginning of a frame do to the boxes. `Walk` says what a script means without call
-- stacks, by a walk over its tree, for events that do not wait, and `Position`, `Reaches` and
-- `WalkLaws` compare the loop with it.
--
-- The correspondence. A value of `WiiMemory` or `State` is what the struct, or the local variables
-- of `process`, hold between two statements. Each arm of `match code` is one function of
-- `WiirdRunner/`, named for the code in the enum of src/wiird.rs: `Fill` has 00 to 08, `Condition`
-- 20 to 2E, E0 and E2, `Address` 40 to 4E, `Flow` 60 to 68, `Register` 80 to 8C and the PowerPC
-- codes. `Step.handle` is the match, `Step.step` one round of the loop, `Step.run` the loop. An
-- arm gives `next` of the state where it falls through to the next round and `stop` of it where it
-- breaks.
--
-- In `Wiird/`, `Code` has the first byte of a line and the arms of `match code`, which the runner
-- shares, `Operand` and `Size` what the operands and sizes of a line are read into, `Block` the
-- tree, `Entry`, `Arms` and `OtherArms` one function for each arm of `process_block`, `Parse` its
-- loop, and `Load` the loaders. An arm reads its line and gives an `Entry`; `Parse.end_line` and
-- `Parse.end_test` are the ends of the arms, with the changes of the loop's variables and the
-- early returns.
--
-- Integers. Every value is a native natural number with its range in an invariant (`IsWii`,
-- `IsBytes`, `IsValid`). Cargo.toml turns debug assertions on in both profiles, so an addition or
-- a product that overflows panics, and `add_u32` and `mul_usize` say so. usize has 64 bits.
--
-- Fuel. `run` recurses on fuel, and `process` gives it one more than the length of the codeset:
-- every round that goes on moves the offset by at least 8 bytes, so the fuel is not used up
-- (`WiirdRunner.Loop`). Out of fuel is a result of its own, `none`, that no theorem takes for a
-- success. `process_lines` and its recursive calls share their fuel in the same way
-- (`Wiird.Terminates`): a block that is read for a test begins after the line of that test.
-- `read_events` reads inside its buffer at every round, and each call of `fragment_scripts` adds a
-- script at an offset that had none, of which there are 2 ^ 32 (`Script.Missing`).
-- `process_events` and its recursive calls take an event at every round (`ScriptAst.Ends`).
-- `run_calls` runs a call stack on fuel. The source has no bound on the calls of subroutines, so
-- `Work.Bounds` gives each script a cost above its work, which exists where no script calls itself
-- through others; the fuel is above the work that is left, by these costs, and each goto is paid
-- by the room that `visited_gotos` leaves.
--
-- Parameters. `BigEndian` is what the code uses of the crate byteorder: its reads and writes of 2
-- and 4 bytes, with the laws that its documentation states. `Bytes/Reference` has an instance.
-- `FancySlice` is the same for the crate fancy_slice, with the instance `fancy_slice`. The type
-- f32 and the division that makes a scalar are parameters of the script reader, and `as_f32`, the
-- conversion from an i32, of the parser of trees. `ScriptRunner.Numbers.Floats` has the operations
-- on f32 that the runner uses, of which nothing is assumed. The frames of a runner take `order`,
-- the order in which a HashMap gives its values, of which nothing is assumed either. A reference
-- to a script is the script with its address, and an event is the first of a script if its call
-- has that address and is at index 0: the source compares the addresses of the events.
--
-- What proofs use. `WiiMemory/View` is the abstract view of memory, one byte for each address of
-- the console, and `Access` shows that the accesses are reads and edits of it.
-- `WiirdRunner/Effect` describes what a line does as one of a few effects and `Decode` and
-- `Dispatch` show that every arm is one of them, so that an invariant is proved once for each
-- effect: `Valid` and `Preserve` for the ranges, `Frame`, `Mirror` and `Coherence` for the buffer,
-- `Disabled` for the execution flag. `Round` leads from the first byte of a line to its arm, and
-- `FillLine`, `TestLine` and `Jump` say by the bytes of a line what a round does at 00, at 20 to
-- 2E and at 66. `Wiird/Listing` is the plain list of the lines of a slice, and `Flattening` and
-- `Faithful` compare the tree with it; `Print` is the text that the loader reads back, and `Texts`
-- says what the lines of a text spell without the loops of the loader, with which `TextLaws`
-- compares them.
--
-- Not modelled: log lines and the text of panics; the floats of `read_f32`; the file access of the
-- loaders, whose results are arguments; the frames of src/high_level_fighter.rs; the fighter and
-- model readers and the renderer.
pub mod Prelude
pub mod Outcome
pub mod Bytes
pub mod WiiMemory
pub mod Wiird
pub mod WiirdRunner
pub mod Slice
pub mod Script
pub mod VariableAst
pub mod ScriptAst
pub mod ScriptRunner
