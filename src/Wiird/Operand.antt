-- ===== src/Wiird/Operand.antt =====
-- The operand types of src/wiird.rs that the parser and the runner share.
use brawllib_rs.Prelude.{ℕ, ◌/◌, ◌*◌, Bool, true, false, Option, none, some, ◌==◌, if◌then◌else◌}

pub data JumpFlag : Type 0 where
  when_true when_false always : JumpFlag

-- `match data[offset + 1] { 0x00 => ..., flag => error }`
unfoldable pub jump_flag : ℕ → Option JumpFlag
jump_flag b =
    if b == 0x00
    then some when_true
    else if b == 0x10
    then some when_false
    else if b == 0x20
    then some always
    else none

pub data AddAddress : Type 0 where
  base_address pointer_address no_address : AddAddress

-- `match (add_bool, use_base_address) { ... }`
unfoldable pub add_address : Bool → Bool → AddAddress
add_address true true = base_address
add_address true false = pointer_address
add_address false _ = no_address

pub data GeckoOperation : Type 0 where
  add mul or and xor shift_left shift_right rotate_left : GeckoOperation
  arithmetic_shift_right float_add float_mul : GeckoOperation
  unknown : ℕ → GeckoOperation

-- `GeckoOperation::new`
unfoldable pub gecko_operation : ℕ → GeckoOperation
gecko_operation value =
    if value == 0
    then add
    else if value == 1
    then mul
    else if value == 2
    then or
    else if value == 3
    then and
    else if value == 4
    then xor
    else if value == 5
    then shift_left
    else if value == 6
    then shift_right
    else if value == 7
    then rotate_left
    else if value == 8
    then arithmetic_shift_right
    else if value == 10
    then float_add
    else if value == 11
    then float_mul
    else unknown value

-- `b & 0xF0`
unfoldable pub high_nibble : ℕ → ℕ
high_nibble b = b / 16 * 16
