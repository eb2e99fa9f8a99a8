-- ===== src/Outcome.antt =====
-- A Rust computation that may panic. Overflow panics as well: Cargo.toml sets
-- `debug-assertions = true` for the release profile, which turns the overflow checks on.
use brawllib_rs.Prelude.{
  ℕ, zero, suc, ◌+◌, ◌*◌, ◌^◌, ◌<◌, ◌≡◌, refl, inl, inr, Bool, true, false, List, [], ◌∷◌, ltb,
  ltb→lt, Option, none, some, Bool-cases, if◌then◌else◌,
}

pub data Outcome {ℓ} (A : Type ℓ) : Type ℓ where
  ok : A → Outcome A
  panic : Outcome A

infixl 5 ◌>>=◌ ◌>>◌
abbrev pub ◌>>=◌ {ℓ κ} : {A : Type ℓ} {B : Type κ} → Outcome A → (A → Outcome B) → Outcome B
ok a >>= f = f a
panic >>= f = panic

abbrev pub ◌>>◌ {ℓ κ} : {A : Type ℓ} {B : Type κ} → Outcome A → Outcome B → Outcome B
m >> k = m >>= λ _. k

-- Every value that a computation returns satisfies `P`; a panic returns none.
pub data Post {ℓ} {A : Type ℓ} (P : A → Type 0) : Outcome A → Type ℓ where
  returns : {a : A} → P a → Post P (ok a)
  panics : Post P panic

pub Post-ok {ℓ} : {A : Type ℓ} {P : A → Type 0} {a : A} → Post P (ok a) → P a
Post-ok (returns p) = p

module _ {ℓ κ} {A : Type ℓ} {B : Type κ} where
  pub Post-bind :
      {P : A → Type 0} {Q : B → Type 0} {m : Outcome A} {f : A → Outcome B}
      → Post P m
      → ((a : A) → P a → Post Q (f a))
      → Post Q (m >>= f)
  Post-bind (returns p) k = k _ p
  Post-bind panics k = panics

  -- A step whose value does not matter to what follows.
  pub Post-then :
      {Q : B → Type 0} (m : Outcome A) {f : A → Outcome B}
      → ((a : A) → Post Q (f a))
      → Post Q (m >>= f)
  Post-then (ok a) k = k a
  Post-then panic k = panics

module _ {ℓ} {A : Type ℓ} where
  pub Post-mono : {P Q : A → Type 0} {m : Outcome A} → Post P m → ((a : A) → P a → Q a) → Post Q m
  Post-mono (returns p) k = returns (k _ p)
  Post-mono panics k = panics

  pub Post-if :
      {P : A → Type 0} (b : Bool) {x y : Outcome A}
      → Post P x
      → Post P y
      → Post P (if b then x else y)
  Post-if true p q = p
  Post-if false p q = q

-- A loop with fuel returns something, if only a panic, and what it returns satisfies `P`.
abbrev pub Ends {ℓ} : {A : Type ℓ} → (A → Type 0) → Option (Outcome A) → Type ℓ
Ends P result = (r : Outcome _) × (result ≡ some r) × Post P r

-- A loop and what follows it, unless it panics or has no more fuel.
abbrev pub and_then {ℓ κ} :
    {A : Type ℓ} {B : Type κ} → Option (Outcome A) → (A → Option (Outcome B)) → Option (Outcome B)
and_then none k = none
and_then (some panic) k = some panic
and_then (some (ok a)) k = k a

pub Ends-and_then :
    {A B : Type 0} {P : A → Type 0} {Q : B → Type 0} {m : Option (Outcome A)}
    {k : A → Option (Outcome B)}
    → Ends P m
    → ((a : A) → P a → Ends Q (k a))
    → Ends Q (and_then m k)
Ends-and_then (panic, e, panics) go = rw e (panic, refl, panics)
Ends-and_then (ok a, e, returns p) go = rw e (go a p)

-- A computation returns what it returns.
pub Post-eq : {A : Type 0} (m : Outcome A) → Post (λ a. m ≡ ok a) m
Post-eq (ok a) = returns refl
Post-eq panic = panics

-- `a + b` on u32 and `a * b` on usize, which is 64 bits wide.
unfoldable pub add_u32 : ℕ → ℕ → Outcome ℕ
add_u32 a b = if ltb (a + b) (2 ^ 32) then ok (a + b) else panic

unfoldable pub mul_usize : ℕ → ℕ → Outcome ℕ
mul_usize a b = if ltb (a * b) (2 ^ 64) then ok (a * b) else panic

pub add_u32-lt : (a b : ℕ) → Post (λ c. c < 2 ^ 32) (add_u32 a b)
unfolding add_u32
add_u32-lt a b = elim (Bool-cases (ltb (a + b) (2 ^ 32))) [
  | inl h ↦ rw h (returns (ltb→lt _ _ h))
  | inr h ↦ rw h panics
]

-- `o.unwrap()`
abbrev pub unwrap {ℓ} : {A : Type ℓ} → Option A → Outcome A
unwrap none = panic
unwrap (some a) = ok a

-- `xs[i]` and `xs[i] = v` on an array.
module _ {ℓ} {A : Type ℓ} where
  unfoldable pub index : List A → ℕ → Outcome A
  index [] i = panic
  index (x ∷ xs) zero = ok x
  index (x ∷ xs) (suc i) = index xs i
