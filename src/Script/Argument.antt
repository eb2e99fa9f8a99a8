-- ===== src/Script/Argument.antt =====
-- The data of a script in src/script.rs: scripts, events, and the arguments of events. An i32 is
-- kept by its 32 bits, and f32 is a type that the model is given.
use brawllib_rs.Prelude.{ℕ, ◌+◌, ◌*◌, ◌^◌, Bool, List, length, ltb, ◌==◌, if◌then◌else◌}
use brawllib_rs.Outcome.{Outcome, ok, panic}
use brawllib_rs.Script.Requirement.{Requirement}

pub data VariableMemoryType : Type 0 where
  internal_constant longterm_access random_access : VariableMemoryType
  unknown : ℕ → VariableMemoryType

-- `VariableMemoryType::new`
unfoldable pub variable_memory_type : ℕ → VariableMemoryType
variable_memory_type value =
    if value == 0
    then internal_constant
    else if value == 1
    then longterm_access
    else if value == 2
    then random_access
    else VariableMemoryType.unknown value

pub data VariableDataType : Type 0 where
  int float bool : VariableDataType
  unknown : ℕ → VariableDataType

-- `VariableDataType::new`
unfoldable pub variable_data_type : ℕ → VariableDataType
variable_data_type value =
    if value == 0
    then int
    else if value == 1
    then float
    else if value == 2
    then bool
    else VariableDataType.unknown value

pub record Variable : Type 0 where
  pub memory_type : VariableMemoryType
  pub data_type : VariableDataType
  pub address : ℕ

pub record Offset : Type 0 where
  pub offset : ℕ
  pub origin : ℕ

pub data Argument (F : Type 0) : Type 0 where
  value : ℕ → Argument F
  scalar : F → Argument F
  offset : Offset → Argument F
  bool : Bool → Argument F
  file : ℕ → Argument F
  variable : Variable → Argument F
  requirement : (flip : Bool) (ty : Requirement) → Argument F
  unknown : (ty value : ℕ) → Argument F

pub record Event (F : Type 0) : Type 0 where
  pub namespace : ℕ
  pub code : ℕ
  pub unk1 : ℕ
  pub arguments : List (Argument F)

pub record Script (F : Type 0) : Type 0 where
  pub events : List (Event F)
  pub offset : ℕ

-- `Event::raw_id`, with its assertion.
unfoldable pub raw_id : {F : Type 0} → Event F → Outcome ℕ
raw_id event =
    let num_args = length event.arguments in
    if ltb num_args 0x100
    then ok (event.namespace * 2 ^ 24 + event.code * 2 ^ 16 + num_args * 2 ^ 8)
    else panic
