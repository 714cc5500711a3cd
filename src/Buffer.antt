-- ===== src/Buffer.antt =====
-- The buffers that the containers of src/foundation/containers/ allocate: what a `void*` to elements
-- points to, and the calls of src/foundation/memory/allocator.c that make and release it.
use c_base.Base.{ℕ, zero, suc, ◌+◌, ◌/◌, List, [], ◌∷◌, Option, none, some}
use c_base.Base.Run.{Run, ok, fault, Fault, ◌>>=◌}
use c_base.Base.Word.{mul_size}
use c_base.Allocator.{AllocatorVtable, allocator_alloc, allocator_free}

pub record Buffer {ℓ} (A : Type ℓ) : Type ℓ where
  pub address : ℕ
  pub cells : List A

-- `n` cells, as the memory from an address on holds them
abbrev pub tabulate {ℓ} : {A : Type ℓ} → ℕ → ℕ → (ℕ → A) → List A
tabulate zero i f = []
tabulate (suc n) i f = f i ∷ tabulate n (i + 1) f

module _ {S A : Type 0} where
  -- `allocator_alloc(allocator, size * count, alignment)`, where `fresh a i` is what cell `i` of a
  -- buffer at `a` holds when it is allocated. The size in bytes wraps; the buffer has as many cells
  -- as fit it.
  unfoldable pub alloc_cells :
      (ℕ → ℕ → A) → Option (AllocatorVtable S) → ℕ → ℕ → ℕ → S → Run (Option (Buffer A) × S)
  alloc_cells fresh none size count alignment heap = fault Fault.bad_pointer
  alloc_cells fresh (some vt) size count alignment heap = do
    (ptr, heap') ← allocator_alloc vt heap (mul_size size count) alignment
    elim ptr [
      | none ↦ ok (none, heap')
      | some a ↦
          let n = mul_size size count / size in
          ok (some (record { address = a; cells = tabulate n 0 (fresh a) }), heap')
    ]

  unfoldable pub free_cells : Option (AllocatorVtable S) → Buffer A → S → Run S
  free_cells none b heap = fault Fault.bad_pointer
  free_cells (some vt) b heap = allocator_free vt heap b.address
