-- ===== src/WiirdRunner/Effect.antt =====
-- What a line of a codeset does to the state of src/wiird_runner.rs, once its operands are read:
-- an act, a test, a terminator or nothing.
use brawllib_rs.Prelude.{ℕ, ◌+◌, ◌^◌, ◌<◌, ◌≡◌, ◌⊎◌, Bool, true, List, ◌∷◌, All}
use brawllib_rs.Outcome.{Outcome, ok}
use brawllib_rs.Bytes.{BigEndian}
use brawllib_rs.Wiird.Code.{Code}
use brawllib_rs.Wiird.Operand.{AddAddress}
use brawllib_rs.Wiird.Size.{IsLines}
use brawllib_rs.WiirdRunner.State.{State, Control, next, stop, last_or_true, pop}
use brawllib_rs.WiirdRunner.Fill
use brawllib_rs.WiirdRunner.Condition.{reset_high}
use brawllib_rs.WiirdRunner.Address
use brawllib_rs.WiirdRunner.Address.{Operands}
use brawllib_rs.WiirdRunner.Register

-- What is done under `if execute`.
pub data Act : Type 0 where
  fill8 fill16 : (rounds address value : ℕ) → Act
  fill32 : (address value : ℕ) → Act
  write_string : List ℕ → (address : ℕ) → Act
  load_base load_pointer set_base set_pointer store_base store_pointer : Operands → Act
  clear_base clear_pointer : Act
  set_register : Bool → AddAddress → (register value : ℕ) → Act

-- The values fit the types that the source reads them at.
abbrev pub IsAct : Act → Type 0
IsAct (fill8 rounds a v) = v < 256
IsAct (fill16 rounds a v) = v < 2 ^ 16
IsAct (fill32 a v) = v < 2 ^ 32
IsAct (write_string values a) = All (λ v. v < 256) values
IsAct (load_base o) = o.value < 2 ^ 32
IsAct (load_pointer o) = o.value < 2 ^ 32
IsAct (set_base o) = o.value < 2 ^ 32
IsAct (set_pointer o) = o.value < 2 ^ 32
IsAct (store_base o) = o.value < 2 ^ 32
IsAct (store_pointer o) = o.value < 2 ^ 32
IsAct clear_base = Unit
IsAct clear_pointer = Unit
IsAct (set_register b add r v) = (r < 16) × (v < 2 ^ 32)

-- The acts that each code may do.
abbrev pub IsFor : Code → Act → Type 0
IsFor Code.write_and_fill8 (fill8 rounds a v) = Unit
IsFor Code.write_and_fill16 (fill16 rounds a v) = Unit
IsFor Code.write_and_fill32 (fill32 a v) = Unit
IsFor Code.string_write (write_string values a) = Unit
IsFor Code.load_base_address (load_base o) = Unit
IsFor Code.set_base_address (set_base o) = Unit
IsFor Code.store_base_address (store_base o) = Unit
IsFor Code.base_address_to_code clear_base = Unit
IsFor Code.load_pointer_address (load_pointer o) = Unit
IsFor Code.set_pointer_address (set_pointer o) = Unit
IsFor Code.store_pointer_address (store_pointer o) = Unit
IsFor Code.pointer_address_to_code clear_pointer = Unit
IsFor Code.set_gecko_register (set_register b add r v) = Unit
IsFor _ _ = ⊥

abbrev pub IsTest : Code → Type 0
IsTest (Code.if_statement c) = Unit
IsTest _ = ⊥

abbrev pub IsTerminator : Code → Type 0
IsTerminator Code.reset_address_high = Unit
IsTerminator Code.endif = Unit
IsTerminator _ = ⊥

module _ (be : BigEndian) (location : ℕ) where
  unfoldable pub perform : Act → State → Outcome State
  perform (fill8 rounds a v) = Fill.fill8 rounds location a v 0
  perform (fill16 rounds a v) = Fill.fill16 be location rounds a v 0
  perform (fill32 a v) = Fill.fill32 be location a v
  perform (write_string values a) = Fill.write_string values location a 0
  perform (load_base o) = Address.load_base be o
  perform (load_pointer o) = Address.load_pointer be o
  perform (set_base o) = Address.set_base o
  perform (set_pointer o) = Address.set_pointer o
  perform (store_base o) = Address.store_base be o
  perform (store_pointer o) = Address.store_pointer be o
  perform clear_base = λ s. ok (record s { base_address = 0 })
  perform clear_pointer = λ s. ok (record s { pointer_address = 0 })
  perform (set_register b add r v) = Register.set_register b add r v

  -- From `s` to the state before the offset moves.
  pub data Effect (code : Code) (s : State) : State → Type 0 where
    idle : Effect code s s
    acts :
        (act : Act) {t : State}
        → IsFor code act
        → IsAct act
        → last_or_true s.execution_stack ≡ true
        → perform act s ≡ ok t
        → Effect code s t
    tests :
        (flag : Bool) (stack : List Bool)
        → IsTest code
        → (stack ≡ s.execution_stack) ⊎ (stack ≡ pop s.execution_stack)
        → Effect code s (record s { execution_stack = flag ∷ stack })
    resets :
        (base pointer : ℕ) (stack : List Bool)
        → IsTerminator code
        → base < 2 ^ 16
        → pointer < 2 ^ 16
        → Effect code s (record s {
          base_address = reset_high base s.base_address;
          pointer_address = reset_high pointer s.pointer_address;
          execution_stack = stack;
        })

  -- How the loop leaves a line at `s`: an effect and a move by whole lines, or a break.
  pub data Leaves (code : Code) (s : State) : Control → Type 0 where
    moves :
        {t : State} (n : ℕ)
        → Effect code s t
        → IsLines n
        → Leaves code s (next (record t { offset = t.offset + n }))
    breaks : Leaves code s (stop s)
