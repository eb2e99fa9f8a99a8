-- ===== src/Wiird/Block.antt =====
-- The syntax tree of src/wiird.rs: `WiiRDCode`, `WiiRDBlock` and `IfTest`, with the fields in the
-- source's order, and what `process_block` returns.
use brawllib_rs.Prelude.{ℕ, Bool, Option, List}
use brawllib_rs.Wiird.Operand.{JumpFlag, AddAddress, GeckoOperation}

pub data IfTest : Type 0 where
  is_equal : (use_base_address : Bool) (address value : ℕ) → IfTest
  is_not_equal : (use_base_address : Bool) (address value : ℕ) → IfTest
  is_greater_than : (use_base_address : Bool) (address value : ℕ) → IfTest
  is_less_than : (use_base_address : Bool) (address value : ℕ) → IfTest
  is_equal_mask : (use_base_address : Bool) (address lhs_mask rhs_value : ℕ) → IfTest
  is_not_equal_mask : (use_base_address : Bool) (address lhs_mask rhs_value : ℕ) → IfTest
  is_greater_than_mask : (use_base_address : Bool) (address lhs_mask rhs_value : ℕ) → IfTest
  is_less_than_mask : (use_base_address : Bool) (address lhs_mask rhs_value : ℕ) → IfTest

-- A block is the Vec of its codes. `ElseBranch` is the `Option<Box<WiiRDBlock>>` of an if.
mutual
  pub data WiirdCode : Type 0 where
    write_and_fill8 : (use_base_address : Bool) (address value length : ℕ) → WiirdCode
    write_and_fill16 : (use_base_address : Bool) (address value length : ℕ) → WiirdCode
    write_and_fill32 : (use_base_address : Bool) (address value : ℕ) → WiirdCode
    string_write : (use_base_address : Bool) (address : ℕ) (values : List ℕ) → WiirdCode
    serial_write :
        (use_base_address : Bool)
        (address initial_value value_size count address_increment value_increment : ℕ)
        → WiirdCode
    if_statement :
        (test : IfTest) (then_branch : WiirdBlock) (else_branch : ElseBranch)
        (reset_base_address_high reset_pointer_address_high : ℕ)
        → WiirdCode
    load_base_address :
        (add_result : Bool) (add_mem_address : AddAddress) (gecko_register : Option ℕ)
        (mem_address : ℕ)
        → WiirdCode
    set_base_address :
        (add_result : Bool) (add : AddAddress) (gecko_register : Option ℕ) (value : ℕ) → WiirdCode
    store_base_address :
        (add_mem_address : AddAddress) (gecko_register : Option ℕ) (mem_address : ℕ) → WiirdCode
    set_base_address_to_code_location : (address_offset : ℕ) → WiirdCode
    load_pointer_address :
        (add_result : Bool) (add_mem_address : AddAddress) (gecko_register : Option ℕ)
        (mem_address : ℕ)
        → WiirdCode
    set_pointer_address :
        (add_result : Bool) (add : AddAddress) (gecko_register : Option ℕ) (value : ℕ) → WiirdCode
    store_pointer_address :
        (add_mem_address : AddAddress) (gecko_register : Option ℕ) (mem_address : ℕ) → WiirdCode
    set_pointer_address_to_code_location : (address_offset : ℕ) → WiirdCode
    set_repeat : (count block_id : ℕ) → WiirdCode
    execute_repeat : (block_id : ℕ) → WiirdCode
    return : (flag : JumpFlag) (block_id : ℕ) → WiirdCode
    goto : (flag : JumpFlag) (offset_lines : ℕ) → WiirdCode
    subroutine : (flag : JumpFlag) (offset_lines block_id : ℕ) → WiirdCode
    set_gecko_register : (add_result : Bool) (add : AddAddress) (register value : ℕ) → WiirdCode
    load_gecko_register : (register mem_address : ℕ) → WiirdCode
    store_gecko_register : (register mem_address : ℕ) → WiirdCode
    operation_gecko_register_direct_value :
        (operation : GeckoOperation) (load_register load_value : Bool) (register value : ℕ)
        → WiirdCode
    operation_gecko_register :
        (operation : GeckoOperation) (load_register1 load_register2 : Bool)
        (register1 register2 : ℕ)
        → WiirdCode
    memory_copy1 :
        (use_base_address : Bool) (count source_register : ℕ) (dest_register : Option ℕ)
        (dest_offset : ℕ)
        → WiirdCode
    memory_copy2 :
        (use_base_address : Bool) (count : ℕ) (source_register : Option ℕ)
        (dest_register source_offset : ℕ)
        → WiirdCode
    execute_ppc : (instruction_data : List ℕ) → WiirdCode
    insert_ppc : (use_base_address : Bool) (address : ℕ) (instruction_data : List ℕ) → WiirdCode
    reset_address_high : (reset_base_address_high reset_pointer_address_high : ℕ) → WiirdCode
    else_code : (endif_count reset_base_address_high reset_pointer_address_high : ℕ) → WiirdCode

  pub data WiirdBlock : Type 0 where
    empty : WiirdBlock
    cons : WiirdCode → WiirdBlock → WiirdBlock

  pub data ElseBranch : Type 0 where
    no_else : ElseBranch
    else_block : WiirdBlock → ElseBranch

-- `codes.push(code)`
unfoldable pub push : WiirdBlock → WiirdCode → WiirdBlock
push empty c = cons c empty
push (cons x xs) c = cons x (push xs c)

pub data EndIfCount : Type 0 where
  infinite : EndIfCount
  finite : ℕ → EndIfCount

pub data ProcessedBlock : Type 0 where
  finished : WiirdBlock → ProcessedBlock
  end_if :
      (count : EndIfCount) (then_branch : WiirdBlock)
      (bytes_processed reset_base_address_high reset_pointer_address_high : ℕ)
      → ProcessedBlock
