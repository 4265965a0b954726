-- ===== src/Json/Result.antt =====
-- How a call of the parser of src/json.c ends: with a value, or with -1 and the offset that is then
-- in `bad_offset`. The model's own third case, a loop without fuel, is shown not to occur.
use libromx.Prelude.{ℕ, ◌≤◌, ◌≡◌, refl, Bool, true, false, if◌then◌else◌}

pub data Parse {ℓ} (A : Type ℓ) : Type ℓ where
  parsed : A → Parse A
  rejected : ℕ → Parse A
  out_of_fuel : Parse A

infixl 5 ◌>>=◌
abbrev pub ◌>>=◌ {ℓ κ} : {A : Type ℓ} {B : Type κ} → Parse A → (A → Parse B) → Parse B
parsed a >>= next = next a
rejected offset >>= next = rejected offset
out_of_fuel >>= next = out_of_fuel

-- The call ends: with a value for which `P` holds, or with an offset of at most `size`.
pub data Ends {ℓ κ} {A : Type ℓ} (size : ℕ) (P : A → Type κ) : Parse A → Type (ℓ ⊔ κ) where
  with_value : {a : A} → P a → Ends size P (parsed a)
  with_offset : {offset : ℕ} → offset ≤ size → Ends size P (rejected offset)

module _ {ℓ κ} {A : Type ℓ} {P : A → Type κ} {size : ℕ} where
  pub Ends-bind {ℓ' κ'} :
      {B : Type ℓ'} {Q : B → Type κ'} {call : Parse A} {next : A → Parse B}
      → Ends size P call
      → ((a : A) → P a → Ends size Q (next a))
      → Ends size Q (call >>= next)
  Ends-bind (with_value {a} p) k = k a p
  Ends-bind (with_offset bound) k = with_offset bound

  pub Ends-if :
      (b : Bool) {x y : Parse A}
      → (b ≡ true → Ends size P x)
      → (b ≡ false → Ends size P y)
      → Ends size P (if b then x else y)
  Ends-if true hx hy = hx refl
  Ends-if false hx hy = hy refl

  pub Ends-map {κ'} :
      {Q : A → Type κ'} {call : Parse A}
      → Ends size P call
      → ((a : A) → P a → Q a)
      → Ends size Q call
  Ends-map (with_value {a} p) weaken = with_value (weaken a p)
  Ends-map (with_offset bound) weaken = with_offset bound
