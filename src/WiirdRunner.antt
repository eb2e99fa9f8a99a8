-- ===== src/WiirdRunner.antt =====
-- src/wiird_runner.rs: the interpreter that runs a WiiRD codeset over the memory of the console.
-- `State` has what the loop keeps, then one module for each group of codes, and `Step` the loop.
pub mod State
pub mod Fill
pub mod Condition
pub mod Address
pub mod Flow
pub mod Register
pub mod Step
pub mod Effect
pub mod Decode
pub mod Dispatch
pub mod Frame
pub mod Loop
pub mod Valid
pub mod Preserve
pub mod Disabled
pub mod Round
pub mod TestLine
pub mod Jump
pub mod Nesting
pub mod Mirror
pub mod FillLine
pub mod Coherence
pub mod Stale
mod Tests
