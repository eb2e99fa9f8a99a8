-- ===== src/Wiird.antt =====
-- src/wiird.rs: the WiiRD codes. `Code` has the first byte of a line and its arms, which
-- `wiird_runner.rs` shares, `Operand` and `Size` what a line's operands are read into, `Block` the
-- syntax tree, `Entry`, `Arms` and `OtherArms` the lines of `process_block`, `Parse` its loop and
-- `Load` the loaders of files. `Lines`, `Terminates`, `Listing`, `Flattening` and `Faithful` are
-- about the parser, `LoadLaws`, `Print`, `PrintLaws` and `Loaders` about the loaders.
pub mod Code
pub mod Operand
pub mod OperandLaws
pub mod CodeLaws
pub mod Size
pub mod Block
pub mod Entry
pub mod Arms
pub mod OtherArms
pub mod Parse
pub mod Lines
pub mod Terminates
pub mod Listing
pub mod Flattening
pub mod Faithful
pub mod Tests
pub mod ParseTests
pub mod Load
pub mod LoadLaws
pub mod Texts
pub mod TextLaws
pub mod Print
pub mod PrintLaws
pub mod Loaders
pub mod LoadTests
