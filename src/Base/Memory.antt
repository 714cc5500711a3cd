-- ===== src/Base/Memory.antt =====
-- Objects in memory, as functions of their addresses.
use Prim.Native.Nat.{ℕ}
use mathlib.Core.Path.{◌≡◌}
use mathlib.Core.Logic.{◌≢◌}
use native.Mathlib.Omega.{arith}
use c_base.Base.Tests.{◌==◌, if◌then◌else◌}

module _ {ℓ} {A : Type ℓ} where
  -- `*(A*)a = v`
  abbrev pub write : (ℕ → A) → ℕ → A → ℕ → A
  write memory a v q = if a == q then v else memory q

  pub write_self : (memory : ℕ → A) (a : ℕ) (v : A) → write memory a v a ≡ v
  write_self memory a v = ground arith

  pub write_ne : (memory : ℕ → A) (a q : ℕ) (v : A) → q ≢ a → write memory a v q ≡ memory q
  write_ne memory a q v h = ground arith
