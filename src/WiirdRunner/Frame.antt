-- ===== src/WiirdRunner/Frame.antt =====
-- What the acts of src/wiird_runner.rs leave alone: the writes of 00 to 06 and of 44 and 4C touch
-- the memory and the buffer only, and no act moves the offset or the execution stack.
use brawllib_rs.Prelude.{ℕ, zero, suc, ◌+◌, ◌-◌, ◌*◌, ◌≡◌, refl, ◌∙◌, Bool, List, [], ◌∷◌}
use brawllib_rs.Outcome.{
  Outcome, ◌>>=◌, add_u32, index, Post, returns, Post-bind, Post-then, Post-mono, Post-if,
}
use brawllib_rs.Bytes.{Bytes, BigEndian, put_u32}
use brawllib_rs.WiiMemory.{WiiMemory, write_u8, write_u16, write_u32, read_u32}
use brawllib_rs.Wiird.Operand.{AddAddress}
use brawllib_rs.WiirdRunner.State.{State}
use brawllib_rs.WiirdRunner.Fill.{
  in_buffer, mirror, store8, fill8, write_string, store16, fill16, fill32,
}
use brawllib_rs.WiirdRunner.Address.{
  Operands, add_to, resolve, accumulate, load_base, load_pointer, store_base, store_pointer,
  set_base, set_pointer,
}
use brawllib_rs.WiirdRunner.Register.{set_register}
use brawllib_rs.WiirdRunner.Effect.{Act, perform}

-- `s'` differs from `s` in its memory and its buffer at most.
pub record OnlyBytes (s s' : State) : Type 0 where
  pub registers : s'.gecko_registers ≡ s.gecko_registers
  pub base : s'.base_address ≡ s.base_address
  pub pointer : s'.pointer_address ≡ s.pointer_address
  pub stack : s'.execution_stack ≡ s.execution_stack
  pub offset : s'.offset ≡ s.offset

-- `s'` goes on from where `s` stands, under the same tests.
pub record SameFlow (s s' : State) : Type 0 where
  pub stack : s'.execution_stack ≡ s.execution_stack
  pub offset : s'.offset ≡ s.offset

only_bytes :
    (s : State) (m : WiiMemory) (b : Bytes) → OnlyBytes s (record s { memory = m; buffer = b })
only_bytes s m b = record {
  registers = refl;
  base = refl;
  pointer = refl;
  stack = refl;
  offset = refl;
}

pub OnlyBytes-refl : (s : State) → OnlyBytes s s
OnlyBytes-refl s = only_bytes s s.memory s.buffer

pub OnlyBytes-trans : {s t u : State} → OnlyBytes s t → OnlyBytes t u → OnlyBytes s u
OnlyBytes-trans p q = record {
  registers = q.registers ∙ p.registers;
  base = q.base ∙ p.base;
  pointer = q.pointer ∙ p.pointer;
  stack = q.stack ∙ p.stack;
  offset = q.offset ∙ p.offset;
}

pub OnlyBytes-SameFlow : {s t : State} → OnlyBytes s t → SameFlow s t
OnlyBytes-SameFlow p = record { stack = p.stack; offset = p.offset }

pub same_flow : (s : State) → SameFlow s s
same_flow s = record { stack = refl; offset = refl }

module _ (location : ℕ) where
  mirror-OnlyBytes :
      (write : Bytes → ℕ → Outcome Bytes) (a : ℕ) (s : State)
      → Post (OnlyBytes s) (mirror write location a s)
  unfolding mirror
  mirror-OnlyBytes write a s = Post-then (in_buffer location a s.buffer) λ inside.
      Post-if inside
        (Post-then (write s.buffer (a - location)) λ b. returns (only_bytes s s.memory b))
        (returns (OnlyBytes-refl s))

  -- The write to memory and its mirror.
  store-OnlyBytes :
      (written : Outcome WiiMemory) (write : Bytes → ℕ → Outcome Bytes) (a : ℕ) (s : State)
      → Post (OnlyBytes s) (written >>= λ m. mirror write location a (record s { memory = m }))
  store-OnlyBytes written write a s = Post-then written λ m.
      Post-mono (mirror-OnlyBytes write a (record s { memory = m }))
        λ t. OnlyBytes-trans (only_bytes s m s.buffer)

  pub store8-OnlyBytes : (a v : ℕ) (s : State) → Post (OnlyBytes s) (store8 location a v s)
  unfolding store8
  store8-OnlyBytes a v s = store-OnlyBytes (write_u8 s.memory a v) _ a s

  pub fill8-OnlyBytes : (n a v i : ℕ) (s : State) → Post (OnlyBytes s) (fill8 n location a v i s)
  unfolding fill8
  fill8-OnlyBytes zero a v i s = returns (OnlyBytes-refl s)
  fill8-OnlyBytes (suc n) a v i s = Post-then (add_u32 a i) λ current.
      Post-bind (store8-OnlyBytes current v s)
        λ t p. Post-mono (fill8-OnlyBytes n a v (i + 1) t) λ u. OnlyBytes-trans p

  pub write_string-OnlyBytes :
      (values : List ℕ) (a i : ℕ) (s : State)
      → Post (OnlyBytes s) (write_string values location a i s)
  unfolding write_string
  write_string-OnlyBytes [] a i s = returns (OnlyBytes-refl s)
  write_string-OnlyBytes (v ∷ values) a i s = Post-then (add_u32 a i) λ current.
      Post-bind (store8-OnlyBytes current v s)
        λ t p. Post-mono (write_string-OnlyBytes values a (i + 1) t) λ u. OnlyBytes-trans p

module _ (be : BigEndian) (location : ℕ) where
  pub fill16-OnlyBytes :
      (n a v i : ℕ) (s : State) → Post (OnlyBytes s) (fill16 be location n a v i s)
  unfolding fill16 store16
  fill16-OnlyBytes zero a v i s = returns (OnlyBytes-refl s)
  fill16-OnlyBytes (suc n) a v i s = Post-then (add_u32 a (i * 2)) λ current.
      Post-bind (store-OnlyBytes location (write_u16 be s.memory current v) _ current s)
        λ t p. Post-mono (fill16-OnlyBytes n a v (i + 1) t) λ u. OnlyBytes-trans p

  pub fill32-OnlyBytes : (a v : ℕ) (s : State) → Post (OnlyBytes s) (fill32 be location a v s)
  unfolding fill32
  fill32-OnlyBytes a v s = Post-then (in_buffer location a s.buffer) λ inside.
      Post-if inside
        (Post-then (write_u32 be s.memory a v)
          λ m. Post-then (put_u32 be s.buffer (a - location) v) λ b. returns (only_bytes s m b))
        (returns (OnlyBytes-refl s))

module _ (be : BigEndian) (o : Operands) (s : State) where
  pub store_base-OnlyBytes : Post (OnlyBytes s) (store_base be o s)
  unfolding store_base
  store_base-OnlyBytes =
      Post-then (resolve o s) λ a.
        Post-then (write_u32 be s.memory a s.base_address) λ m. returns (only_bytes s m s.buffer)

  pub store_pointer-OnlyBytes : Post (OnlyBytes s) (store_pointer be o s)
  unfolding store_pointer
  store_pointer-OnlyBytes = Post-then (resolve o s) λ a.
      Post-then (write_u32 be s.memory a s.pointer_address) λ m. returns (only_bytes s m s.buffer)

  pub load_base-SameFlow : Post (SameFlow s) (load_base be o s)
  unfolding load_base
  load_base-SameFlow = Post-then (resolve o s) λ a. Post-then (read_u32 be s.memory a) λ v.
      Post-then (accumulate o.add_result s.base_address v)
        λ b. returns (record { stack = refl; offset = refl })

  pub load_pointer-SameFlow : Post (SameFlow s) (load_pointer be o s)
  unfolding load_pointer
  load_pointer-SameFlow = Post-then (resolve o s) λ a. Post-then (read_u32 be s.memory a) λ v.
      Post-then (accumulate o.add_result s.pointer_address v)
        λ b. returns (record { stack = refl; offset = refl })

module _ (o : Operands) (s : State) where
  pub set_base-SameFlow : Post (SameFlow s) (set_base o s)
  unfolding set_base
  set_base-SameFlow = Post-then (resolve o s) λ v.
      Post-then (accumulate o.add_result s.base_address v)
        λ b. returns (record { stack = refl; offset = refl })

  pub set_pointer-SameFlow : Post (SameFlow s) (set_pointer o s)
  unfolding set_pointer
  set_pointer-SameFlow = Post-then (resolve o s) λ v.
      Post-then (accumulate o.add_result s.pointer_address v)
        λ b. returns (record { stack = refl; offset = refl })

pub set_register-SameFlow :
    (b : Bool) (add : AddAddress) (r v : ℕ) (s : State)
    → Post (SameFlow s) (set_register b add r v s)
unfolding set_register
set_register-SameFlow b add r v s = Post-then (add_to add s v) λ v'.
    Post-then (index s.gecko_registers r)
      λ old. Post-then (accumulate b old v') λ w. returns (record { stack = refl; offset = refl })

module _ (be : BigEndian) (location : ℕ) where
  -- No act moves the offset or the execution stack.
  pub perform-SameFlow : (act : Act) (s : State) → Post (SameFlow s) (perform be location act s)
  unfolding perform
  perform-SameFlow (Act.fill8 n a v) s =
      Post-mono (fill8-OnlyBytes location n a v 0 s) λ t. OnlyBytes-SameFlow
  perform-SameFlow (Act.fill16 n a v) s =
      Post-mono (fill16-OnlyBytes be location n a v 0 s) λ t. OnlyBytes-SameFlow
  perform-SameFlow (Act.fill32 a v) s =
      Post-mono (fill32-OnlyBytes be location a v s) λ t. OnlyBytes-SameFlow
  perform-SameFlow (Act.write_string vs a) s =
      Post-mono (write_string-OnlyBytes location vs a 0 s) λ t. OnlyBytes-SameFlow
  perform-SameFlow (Act.load_base o) s = load_base-SameFlow be o s
  perform-SameFlow (Act.load_pointer o) s = load_pointer-SameFlow be o s
  perform-SameFlow (Act.set_base o) s = set_base-SameFlow o s
  perform-SameFlow (Act.set_pointer o) s = set_pointer-SameFlow o s
  perform-SameFlow (Act.store_base o) s =
      Post-mono (store_base-OnlyBytes be o s) λ t. OnlyBytes-SameFlow
  perform-SameFlow (Act.store_pointer o) s =
      Post-mono (store_pointer-OnlyBytes be o s) λ t. OnlyBytes-SameFlow
  perform-SameFlow Act.clear_base s = returns (record { stack = refl; offset = refl })
  perform-SameFlow Act.clear_pointer s = returns (record { stack = refl; offset = refl })
  perform-SameFlow (Act.set_register b add r v) s = set_register-SameFlow b add r v s
