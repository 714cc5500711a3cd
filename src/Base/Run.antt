-- ===== src/Base/Run.antt =====
-- What a call of the C code can do: return, or stop in one of the ways that the source writes out
-- or that C leaves undefined.
use mathlib.Core.Path.{◌≡◌}
use mathlib.Core.Bool.{Bool, true, false}

-- `assertion` is a failed `assert`; `unreachable` is the UNREACHABLE macro; `todo` is TODO_IMPL;
-- `bad_access` is a read or write outside the object; `bad_pointer` is a call or a read through a
-- null or mistyped pointer; `division_by_zero` is `% 0`; `endless` is a loop whose fuel ran out.
pub data Fault : Type 0 where
  assertion unreachable todo bad_access bad_pointer division_by_zero endless : Fault

pub data Run {ℓ} (A : Type ℓ) : Type ℓ where
  fault : Fault → Run A
  ok : A → Run A

infixl 5 ◌>>=◌ ◌>>◌
abbrev pub ◌>>=◌ {ℓ κ} : {A : Type ℓ} {B : Type κ} → Run A → (A → Run B) → Run B
fault reason >>= k = fault reason
ok result >>= k = k result

abbrev pub ◌>>◌ {ℓ} : {B : Type ℓ} → Run (Unit {0}) → Run B → Run B
m >> k = m >>= λ _. k

-- `assert(test)`
abbrev pub assert : Bool → Run (Unit {0})
assert true = ok tt
assert false = fault Fault.assertion

-- No fault: there is a result, of which `post` holds.
abbrev pub Returns {ℓ κ} : {A : Type ℓ} → Run A → (A → Type κ) → Type (ℓ ⊔ κ)
Returns {A} run post = (result : A) × (run ≡ ok result) × post result
