-- ===== src/Policy.antt =====
-- include/base/foundation/containers/container.h: what a container is told about its elements. An
-- element is what the bytes of its slot hold, a value of `E`; the functions of a policy belong to
-- the container's user, and act on slots and on a world `W` of whatever else the elements own. A null
-- function pointer is `none`; the `ctx` of a lifetime is part of the functions.
use c_base.Base.{ℕ, Bool, true, false, Option, none, some}
use c_base.Base.Run.{Run, ok, fault, Fault}

pub record ElementPolicy (W E : Type 0) : Type 0 where
  -- the slot before and after
  pub ctor : Option (W → E → Run (E × W))
  pub dtor : Option (W → E → Run (E × W))
  -- the slots `dest` and `src`; the new `dest`
  pub copy : Option (W → E → E → Run (E × W))
  -- the slots `dest` and `src`; the new `dest` and `src`
  pub move : Option (W → E → E → Run (E × E × W))
  pub equals : Option (W → E → E → Run Bool)
  -- the `i32` result as its bit pattern
  pub compare : Option (W → E → E → Run ℕ)
  pub hash : Option (W → E → Run ℕ)

pub record ElementLifetime (W E : Type 0) : Type 0 where
  pub policy : Option (ElementPolicy W E)

-- `const ElementLifetime*`; null is POD_LIFETIME
abbrev pub Lifetime : Type 0 → Type 0 → Type 0
Lifetime W E = Option (ElementLifetime W E)

module _ {W E : Type 0} where
  -- `assert(!lifetime || lifetime->policy)`, and the policy behind the lifetime, if there is one
  abbrev pub check_lifetime : Lifetime W E → Run (Option (ElementPolicy W E))
  check_lifetime none = ok none
  check_lifetime (some lifetime) = elim lifetime.policy [
    | none ↦ fault Fault.assertion
    | some policy ↦ ok (some policy)
  ]

  -- the policy behind the lifetime where the code reads it with no assertion
  abbrev pub read_lifetime : Lifetime W E → Run (Option (ElementPolicy W E))
  read_lifetime none = ok none
  read_lifetime (some lifetime) = elim lifetime.policy [
    | none ↦ fault Fault.bad_pointer
    | some policy ↦ ok (some policy)
  ]

abbrev pub is_some {ℓ} : {A : Type ℓ} → Option A → Bool
is_some none = false
is_some (some _) = true
