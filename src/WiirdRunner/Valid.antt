-- ===== src/WiirdRunner/Valid.antt =====
-- The invariant of the state of src/wiird_runner.rs: the sizes never change, and every value fits
-- the type that the source gives it.
use brawllib_rs.Prelude.{
  ℕ, zero, suc, ◌+◌, ◌-◌, ◌*◌, ◌^◌, ◌<◌, ◌≡◌, refl, ◌∙◌, Bool, List, [], ◌∷◌, Option, none, some,
  length, All, set, length-set, All-set, arith,
}
use brawllib_rs.Outcome.{
  Outcome, add_u32, add_u32-lt, index, Post, returns, Post-bind, Post-then, Post-if,
}
use brawllib_rs.Bytes.{Bytes, BigEndian}
use brawllib_rs.Bytes.Words.{IsBytes}
use brawllib_rs.WiiMemory.{WiiMemory}
use brawllib_rs.WiiMemory.View.{IsWii}
use brawllib_rs.WiiMemory.Invariant.{
  SameSize, put-SameSize, put_u16-SameSize, put_u32-SameSize, write_u8-IsWii, write_u16-IsWii,
  write_u32-IsWii,
}
use brawllib_rs.Wiird.Operand.{AddAddress, base_address, pointer_address, no_address}
use brawllib_rs.WiirdRunner.State.{State}
use brawllib_rs.WiirdRunner.Fill.{
  in_buffer, mirror, store8, fill8, write_string, store16, fill16, fill32,
}
use brawllib_rs.WiirdRunner.Condition.{reset_high}
use brawllib_rs.WiirdRunner.Address.{Operands, add_to, add_register, resolve, accumulate}

abbrev pub IsU32 : ℕ → Type 0
IsU32 v = v < 2 ^ 32

pub record IsValid (size : ℕ) (s : State) : Type 0 where
  pub memory : IsWii s.memory
  pub buffer : IsBytes s.buffer
  pub len : s.buffer.len ≡ size
  pub count : length s.gecko_registers ≡ 16
  pub registers : All IsU32 s.gecko_registers
  pub base : IsU32 s.base_address
  pub pointer : IsU32 s.pointer_address

module _ {size : ℕ} {s : State} (valid : IsValid size s) where
  with_bytes :
      {m : WiiMemory} {b : Bytes}
      → IsWii m
      → SameSize s.buffer b
      → IsValid size (record s { memory = m; buffer = b })
  with_bytes h same = record {
    memory = h;
    buffer = same.bytes;
    len = same.len ∙ valid.len;
    count = valid.count;
    registers = valid.registers;
    base = valid.base;
    pointer = valid.pointer;
  }

  pub with_memory : {m : WiiMemory} → IsWii m → IsValid size (record s { memory = m })
  with_memory h = with_bytes h (record { len = refl; bytes = valid.buffer })

  pub with_base : {v : ℕ} → IsU32 v → IsValid size (record s { base_address = v })
  with_base h = record {
    memory = valid.memory;
    buffer = valid.buffer;
    len = valid.len;
    count = valid.count;
    registers = valid.registers;
    base = h;
    pointer = valid.pointer;
  }

  pub with_pointer : {v : ℕ} → IsU32 v → IsValid size (record s { pointer_address = v })
  with_pointer h = record {
    memory = valid.memory;
    buffer = valid.buffer;
    len = valid.len;
    count = valid.count;
    registers = valid.registers;
    base = valid.base;
    pointer = h;
  }

  pub with_register :
      (r : ℕ) {v : ℕ}
      → IsU32 v
      → IsValid size (record s { gecko_registers = set s.gecko_registers r v })
  with_register r {v} h = record {
    memory = valid.memory;
    buffer = valid.buffer;
    len = valid.len;
    count = length-set s.gecko_registers r v ∙ valid.count;
    registers = All-set IsU32 s.gecko_registers r v valid.registers h;
    base = valid.base;
    pointer = valid.pointer;
  }

  -- A new stack or offset is no matter.
  pub with_flow :
      (stack : List Bool) (n : ℕ) → IsValid size (record s { execution_stack = stack; offset = n })
  with_flow stack n = record {
    memory = valid.memory;
    buffer = valid.buffer;
    len = valid.len;
    count = valid.count;
    registers = valid.registers;
    base = valid.base;
    pointer = valid.pointer;
  }

  pub add_to-lt : (add : AddAddress) {v : ℕ} → IsU32 v → Post IsU32 (add_to add s v)
  unfolding add_to
  add_to-lt base_address h = add_u32-lt _ _
  add_to-lt pointer_address h = add_u32-lt _ _
  add_to-lt no_address h = returns h

  pub resolve-lt : (o : Operands) → IsU32 o.value → Post IsU32 (resolve o s)
  unfolding resolve
  resolve-lt o h = Post-bind (add_to-lt o.add h) λ v hv. go o.add_gecko_register hv
    where
      go : (r : Option ℕ) {v : ℕ} → IsU32 v → Post IsU32 (add_register r s v)
      go none hv = returns hv
      go (some r) hv = Post-then (index s.gecko_registers r) λ w. add_u32-lt _ _

pub accumulate-lt : (b : Bool) (old : ℕ) {v : ℕ} → IsU32 v → Post IsU32 (accumulate b old v)
unfolding accumulate
accumulate-lt b old h = Post-if b (add_u32-lt _ _) (returns h)

pub reset_high-lt : (r : ℕ) {v : ℕ} → r < 2 ^ 16 → IsU32 v → IsU32 (reset_high r v)
unfolding reset_high
reset_high-lt r h hv = ground arith

module _ (location : ℕ) {size : ℕ} where
  mirror-IsValid :
      (write : Bytes → ℕ → Outcome Bytes)
      → ((b : Bytes) (k : ℕ) → IsBytes b → Post (SameSize b) (write b k))
      → (a : ℕ) {s : State} → IsValid size s
      → Post (IsValid size) (mirror write location a s)
  unfolding mirror
  mirror-IsValid write keep a {s} valid = Post-then (in_buffer location a s.buffer) λ inside.
      Post-if inside
        (Post-bind (keep s.buffer (a - location) valid.buffer)
          λ b h. returns (with_bytes valid valid.memory h))
        (returns valid)

  store8-IsValid :
      (a : ℕ) {v : ℕ} {s : State}
      → v < 256
      → IsValid size s
      → Post (IsValid size) (store8 location a v s)
  unfolding store8
  store8-IsValid a hv valid =
      Post-bind (write_u8-IsWii valid.memory a hv)
        λ m h. mirror-IsValid _ (λ b k bytes. put-SameSize b bytes k hv) a (with_memory valid h)

  pub fill8-IsValid :
      (n a : ℕ) {v : ℕ} (i : ℕ) {s : State}
      → v < 256
      → IsValid size s
      → Post (IsValid size) (fill8 n location a v i s)
  unfolding fill8
  fill8-IsValid zero a i hv valid = returns valid
  fill8-IsValid (suc n) a i hv valid =
      Post-then (add_u32 a i)
        λ current. Post-bind (store8-IsValid current hv valid) λ t. fill8-IsValid n a (i + 1) hv

  pub write_string-IsValid :
      (values : List ℕ) (a i : ℕ) {s : State}
      → All (λ v. v < 256) values
      → IsValid size s
      → Post (IsValid size) (write_string values location a i s)
  unfolding write_string
  write_string-IsValid [] a i hs valid = returns valid
  write_string-IsValid (v ∷ values) a i (hv, hs) valid = Post-then (add_u32 a i) λ current.
      Post-bind (store8-IsValid current hv valid) λ t. write_string-IsValid values a (i + 1) hs

module _ (be : BigEndian) (location : ℕ) {size : ℕ} where
  pub fill16-IsValid :
      (n a v i : ℕ) {s : State}
      → IsValid size s
      → Post (IsValid size) (fill16 be location n a v i s)
  unfolding fill16 store16
  fill16-IsValid zero a v i valid = returns valid
  fill16-IsValid (suc n) a v i valid = Post-then (add_u32 a (i * 2)) λ current.
      Post-bind
        (Post-bind (write_u16-IsWii be valid.memory current v) λ m h.
          mirror-IsValid location _ (λ b k bytes. put_u16-SameSize be b bytes k v) current
            (with_memory valid h))
        λ t. fill16-IsValid n a v (i + 1)

  pub fill32-IsValid :
      (a v : ℕ) {s : State} → IsValid size s → Post (IsValid size) (fill32 be location a v s)
  unfolding fill32
  fill32-IsValid a v {s} valid = Post-then (in_buffer location a s.buffer) λ inside.
      Post-if inside
        (Post-bind (write_u32-IsWii be valid.memory a v) λ m hm.
          Post-bind (put_u32-SameSize be s.buffer valid.buffer (a - location) v)
            λ b hb. returns (with_bytes valid hm hb))
        (returns valid)
