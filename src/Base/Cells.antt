-- ===== src/Base/Cells.antt =====
-- Reads and writes of C arrays that fault out of range, and division that faults at 0.
use Prim.Native.Nat.{ℕ, ◌/◌, ◌%◌, ◌<◌}
use mathlib.Core.Path.{◌≡◌}
use mathlib.Core.List.{List}
use mathlib.Core.Option.{none, some}
use c_base.Base.Lists.{length, get_elem?, set}
use c_base.Base.Run.{Run, ok, fault, Fault}
use c_base.Base.Tests.{ltb, ◌==◌, if◌then◌else◌, lt→ltb}

module _ {ℓ} {A : Type ℓ} where
  -- `xs[i]`
  abbrev pub load : List A → ℕ → Run A
  load xs i = elim (get_elem? xs i) [ none ↦ fault Fault.bad_access | some a ↦ ok a ]

  -- `xs[i] = v`
  abbrev pub store : List A → ℕ → A → Run (List A)
  store xs i v = if ltb i (length xs) then ok (set xs i v) else fault Fault.bad_access

  pub store-ok : (xs : List A) (i : ℕ) (v : A) → i < length xs → store xs i v ≡ ok (set xs i v)
  store-ok xs i v h = rw (lt→ltb i (length xs) h)

  pub load-ok : (xs : List A) (i : ℕ) (a : A) → get_elem? xs i ≡ some a → load xs i ≡ ok a
  load-ok xs i a e = rw (e, load)

abbrev pub div_size : ℕ → ℕ → Run ℕ
div_size a b = if b == 0 then fault Fault.division_by_zero else ok (a / b)

abbrev pub mod_size : ℕ → ℕ → Run ℕ
mod_size a b = if b == 0 then fault Fault.division_by_zero else ok (a % b)
