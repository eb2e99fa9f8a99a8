-- ===== src/Script.antt =====
-- src/script.rs: the scripts of a fighter, lists of events with arguments, read from its data.
-- `Requirement` and `Argument` are the data, `Read` reads a script, `Fragments` a table of scripts
-- and the scripts that events lead to. `RequirementLaws`, `ReadLaws`, `ReadEnds` and `TableLaws`
-- are about the readers, `Found`, `FragmentLaws`, `Missing` and `Closure` about the fragments.
pub mod Requirement
pub mod RequirementLaws
pub mod Argument
pub mod Read
pub mod ReadLaws
pub mod ReadEnds
pub mod Fragments
pub mod Found
pub mod FragmentLaws
pub mod Missing
pub mod Closure
pub mod TableLaws
pub mod Tests
