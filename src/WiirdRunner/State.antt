-- ===== src/WiirdRunner/State.antt =====
-- What `process` of src/wiird_runner.rs keeps across lines, and what it reads of every line.
use brawllib_rs.Prelude.{ℕ, ◌+◌, ◌*◌, ◌/◌, ◌^◌, Bool, true, false, List, [], ◌∷◌, if◌then◌else◌}
use brawllib_rs.Outcome.{Outcome, ok, add_u32}
use brawllib_rs.Bytes.{Bytes}
use brawllib_rs.WiiMemory.{WiiMemory}

-- The Vec `execution_stack` is a list with its last element first.
pub record State : Type 0 where
  pub memory : WiiMemory
  pub buffer : Bytes
  pub gecko_registers : List ℕ
  pub base_address : ℕ
  pub pointer_address : ℕ
  pub execution_stack : List Bool
  pub offset : ℕ

-- The values computed before `match code`.
pub record Line : Type 0 where
  pub use_base_address : Bool
  pub address : ℕ
  pub execute : Bool

-- How an arm leaves the loop's body: on to the next line, or by `break`.
pub data Control : Type 0 where
  next : State → Control
  stop : State → Control

-- `execution_stack.last().cloned().unwrap_or(true)`
unfoldable pub last_or_true : List Bool → Bool
last_or_true [] = true
last_or_true (b ∷ _) = b

-- `execution_stack.pop();`
unfoldable pub pop : List Bool → List Bool
pop [] = []
pop (_ ∷ bs) = bs

-- `if execute { ... }`
unfoldable pub when : Bool → (State → Outcome State) → State → Outcome State
when true act s = act s
when false act s = ok s

-- `offset += n`. The offset lies inside a slice and n is below 2 ^ 36, so a usize holds the sum.
unfoldable pub advance : ℕ → State → Outcome Control
advance n s = ok (next (record s { offset = s.offset + n }))

-- `x & 0xFE000000` on u32
unfoldable pub high_bits : ℕ → ℕ
high_bits x = x / 2 ^ 25 * 2 ^ 25

-- `let mem_address = if use_base_address { ... } else { ... };`
unfoldable pub target : Bool → ℕ → State → Outcome ℕ
unfolding high_bits
target use_base_address address s =
    if use_base_address
    then add_u32 (high_bits s.base_address) address
    else add_u32 s.pointer_address address
