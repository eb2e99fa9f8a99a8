-- ===== src/ScriptAst.antt =====
-- src/script_ast/mod.rs: the events of a script as a tree, and how the parser makes it.
pub mod Options
pub mod Kinds
pub mod Switches
pub mod HitBoxKinds
pub mod HitBoxes
pub mod Effects
pub mod Expression
pub mod Tree
mod Shapes
mod ControlArms
mod HitBoxArms
mod CollisionArms
mod StateArms
mod GraphicArms
mod OtherArms
mod Arms
mod Parse
mod Ends
mod Safe
mod Leaves
mod LeafArms
mod LeafTables
mod LeafEvents
mod Sizes
mod Grammar
mod Spelling
mod KindLaws
mod HitBoxLaws
mod Tests
