-- ===== src/Outcome.antt =====
-- Result codes and error records: romx_result_t and romx_error_t of include/romx/romx.h, and
-- romx_error_set and romx_result_string of src/error.c. A function that returns ROMX_OK with its
-- out-parameters set is `ok`; any other return is `fail` with the error record. Messages and
-- system codes carry no decision of the library and are left out.
use libromx.Prelude.{ℕ, ◌-◌, ◌^◌, ◌≡◌, refl, Bool, true, false, if◌then◌else◌, ◌⊎◌, inl, inr}

-- The codes other than ROMX_OK that the modelled functions return.
pub data Code : Type 0 where
  invalid_argument out_of_memory io_error truncated invalid_footer : Code
  range overlap immutable_hash unsupported index_error virtual_path : Code
  entry_not_found entry_crc mutable_absent mutable_header mutable_entry : Code
  mutable_data_crc mutable_no_space write_error : Code
  metadata_absent metadata_too_large metadata_utf8 metadata_json metadata_schema : Code
  cover_absent cover_too_large cover_png buffer_too_small mutable_stats : Code

pub record Failure : Type 0 where
  pub code : Code
  pub byte_offset : ℕ

pub data Outcome {ℓ} (A : Type ℓ) : Type ℓ where
  ok : A → Outcome A
  fail : Failure → Outcome A

-- ROMX_OFFSET_UNKNOWN, which is UINT64_MAX.
abbrev pub offset_unknown : ℕ
offset_unknown = 2 ^ 64 - 1

-- `return romx_error_set(error, code, 0, byte_offset, …)`
abbrev pub error_set {ℓ} : {A : Type ℓ} → Code → ℕ → Outcome A
error_set code offset = fail (record { code = code; byte_offset = offset })

infixl 5 ◌>>=◌ ◌>>◌
abbrev pub ◌>>=◌ {ℓ κ} : {A : Type ℓ} {B : Type κ} → Outcome A → (A → Outcome B) → Outcome B
ok a >>= f = f a
fail e >>= f = fail e

abbrev pub ◌>>◌ {ℓ} : {B : Type ℓ} → Outcome (Unit {0}) → Outcome B → Outcome B
m >> k = m >>= λ _. k

-- `if (bad) return romx_error_set(error, code, 0, byte_offset, …);`
abbrev pub refuse_if : Bool → Code → ℕ → Outcome (Unit {0})
refuse_if true code offset = error_set code offset
refuse_if false code offset = ok tt

-- A chain that succeeds: the first call did, and the rest did on its value.
pub >>=-eq-ok {ℓ κ} :
    {A : Type ℓ} {B : Type κ} (call : Outcome A) (next : A → Outcome B) {result : B}
    → (call >>= next) ≡ ok result
    → (value : A) × (call ≡ ok value) × (next value ≡ ok result)
>>=-eq-ok (fail failure) next succeeded = cc
>>=-eq-ok (ok value) next succeeded = (value, refl, succeeded)

pub ok-injective {ℓ} : {A : Type ℓ} {a b : A} → ok a ≡ ok b → a ≡ b
ok-injective h = cc

pub refuse_if-eq-ok :
    (b : Bool) (code : Code) (offset : ℕ) → refuse_if b code offset ≡ ok tt → b ≡ false
refuse_if-eq-ok true code offset h = cc
refuse_if-eq-ok false code offset h = refl

pub Outcome-cases {ℓ} :
    {A : Type ℓ} (m : Outcome A) → ((a : A) × (m ≡ ok a)) ⊎ ((e : Failure) × (m ≡ fail e))
Outcome-cases (ok a) = inl (a, refl)
Outcome-cases (fail e) = inr (e, refl)

pub fail-≢-ok {ℓ} : {A : Type ℓ} {e : Failure} {a : A} → fail e ≡ ok a → ⊥
fail-≢-ok h = cc

pub if-eq-ok {ℓ} :
    {A : Type ℓ} (b : Bool) (x y : Outcome A) {a : A}
    → (if b then x else y) ≡ ok a
    → ((b ≡ true) × (x ≡ ok a)) ⊎ ((b ≡ false) × (y ≡ ok a))
if-eq-ok true x y h = inl (refl, h)
if-eq-ok false x y h = inr (refl, h)
