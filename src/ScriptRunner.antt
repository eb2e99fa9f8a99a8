-- ===== src/ScriptRunner.antt =====
-- src/script_runner.rs: the state of a fighter while its scripts run, and what each event does to it.
mod Numbers
mod Vectors
mod Ints
mod Floats
mod Bools
mod Variables
mod CollisionBox
mod HitBoxes
mod Placed
mod BoxLaws
mod BoxRange
mod Frame
mod Stored
mod Setters
mod Store
mod StepVariables
mod StepVariablesLaws
mod Expressions
mod ExpressionLaws
mod ParsedLaws
mod IntLaws
mod FloatLaws
mod BoolLaws
mod Maps
mod Visibility
mod VisibilityLaws
mod State
mod StepBody
mod StepFlow
mod StepStack
mod Work
mod WorkLaws
mod Descent
mod StackEnds
mod StepScript
mod FrameEnds
mod Recursion
mod Walk
mod Position
mod Reaches
mod WalkLaws
mod NewState
mod Run
mod RunEnds
mod StackTests
mod RunTests
mod Tests
