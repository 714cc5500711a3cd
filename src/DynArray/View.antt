-- ===== src/DynArray/View.antt =====
-- What a dynamic array holds, when it is well formed, and what it asks of its allocator and of its
-- elements.
use native.Mathlib.Nat.{mul-div_cancel, mul_comm}
use c_base.Base.{
  ℕ, zero, suc, ◌+◌, ◌*◌, ◌/◌, ◌≤◌, ◌<◌, ◌≡◌, refl, ap, ◌∙◌, List, [], Option, none, some, true,
  arith, length, take, ◌⊎◌, inl, inr, Option-cases,
}
use c_base.Base.Run.{ok, ◌>>=◌, Returns}
use c_base.Base.Word.{word_mod, mul_size}
use c_base.Allocator.{AllocatorVtable, IsServing}
use c_base.Buffer.{Buffer, tabulate, alloc_cells, free_cells}
use c_base.DynArray.{DynArray}
use c_base.DynArray.Store.{alloc_buffer, free_buffer, can_relocate}
use c_base.DynArray.Transfer.{Carries}
use c_base.Policy.{ElementPolicy, Lifetime, check_lifetime, read_lifetime}

-- the cells of the buffer; a null buffer has none
abbrev pub buffer_cells : {E : Type 0} → Option (Buffer E) → List E
buffer_cells none = []
buffer_cells (some b) = b.cells

module _ {S W E : Type 0} where
  -- the elements of the array, in order
  abbrev pub contents : DynArray S W E → List E
  contents d = take d.size (buffer_cells d.buffer)

  pub record IsArray (d : DynArray S W E) : Type 0 where
    pub served : (vt : AllocatorVtable S) × (d.allocator ≡ some vt) × IsServing vt d.alignment
    pub sized : 0 < d.elem_size
    pub fits : d.capacity * d.elem_size < word_mod
    pub room : d.size ≤ d.capacity
    pub cells : length (buffer_cells d.buffer) ≡ d.capacity

-- The lifetime is readable, and its elements carry over.
abbrev pub IsCarrying : {W E : Type 0} → Lifetime W E → Type 0
IsCarrying {W} {E} lifetime =
    (policy : Option (ElementPolicy W E)) × (check_lifetime lifetime ≡ ok policy) × Carries policy

pub read_of_check :
    {W E : Type 0}
    → (lifetime : Lifetime W E) (policy : Option (ElementPolicy W E))
    → check_lifetime lifetime ≡ ok policy
    → read_lifetime lifetime ≡ ok policy
read_of_check none policy e = e
read_of_check (some lifetime) policy e = go (Option-cases lifetime.policy)
  where
    go :
        (lifetime.policy ≡ none) ⊎ ((p : ElementPolicy _ _) × (lifetime.policy ≡ some p))
        → read_lifetime (some lifetime) ≡ ok policy
    go (inl h) = absurd (cc (rw h at e))
    go (inr (p, h)) = rw h (rw h at e)

Transfers-can :
    {W E : Type 0} → (p : ElementPolicy W E) → Carries (some p) → can_relocate (some p) ≡ true
Transfers-can p c = go (Option-cases p.move) (Option-cases p.copy)
  where
    go :
        (p.move ≡ none) ⊎ ((m : _) × (p.move ≡ some m))
        → (p.copy ≡ none) ⊎ ((m : _) × (p.copy ≡ some m))
        → can_relocate (some p) ≡ true
    go (inr (m, h)) _ = rw h refl
    go (inl h) (inr (m, k)) = rw (h, k) refl
    go (inl h) (inl k) = absurd (rw (h, k) at c)

pub Carries-can :
    {W E : Type 0}
    → (policy : Option (ElementPolicy W E)) → Carries policy
    → can_relocate policy ≡ true
Carries-can none c = refl
Carries-can (some p) c = Transfers-can p c

pub length-tabulate : {E : Type 0} → (n i : ℕ) (f : ℕ → E) → length (tabulate n i f) ≡ n
length-tabulate zero i f = refl
length-tabulate (suc n) i f = ap suc (length-tabulate n (i + 1) f)

-- What an allocation of `n` cells gives: nothing, or a buffer of `n` cells.
abbrev pub HasCells : {S E : Type 0} → ℕ → Option (Buffer E) × S → Type 0
HasCells n (none, heap) = Unit
HasCells n (some b, heap) = length b.cells ≡ n

module _ {S W E : Type 0} (fresh : ℕ → ℕ → E) where
  pub alloc_buffer-HasCells :
      (d : DynArray S W E) (n : ℕ) (heap : S)
      → IsArray d
      → n * d.elem_size < word_mod
      → Returns (alloc_buffer fresh d n heap) (HasCells n)
  unfolding alloc_cells
  alloc_buffer-HasCells d n heap a h =
      let (vt, e, serving) = a.served in
      let ((ptr, heap'), run, _) = serving.allocates heap (mul_size d.elem_size n) in
      go vt ptr heap' e run
    where
      count : mul_size d.elem_size n / d.elem_size ≡ n
      count = ground (arith, h, a.sized, mul_comm n d.elem_size, mul-div_cancel n {n = d.elem_size})

      go :
          (vt : AllocatorVtable S) (ptr : Option ℕ) (heap' : S)
          → d.allocator ≡ some vt
          → vt.alloc heap (mul_size d.elem_size n) d.alignment ≡ ok (ptr, heap')
          → Returns (alloc_buffer fresh d n heap) (HasCells n)
      go vt none heap' e run = ((none, heap'), rw (e, run, ◌>>=◌), tt)
      go vt (some p) heap' e run =
          let filled = tabulate (mul_size d.elem_size n / d.elem_size) 0 (fresh p) in
          (
            (some (record { address = p; cells = filled }), heap'),
            rw (e, run, ◌>>=◌),
            length-tabulate (mul_size d.elem_size n / d.elem_size) 0 (fresh p) ∙ count,
          )

module _ {S W E : Type 0} where
  pub free_buffer-total :
      (d : DynArray S W E) (b : Buffer E) (heap : S)
      → IsArray d
      → Returns (free_buffer d b heap) (λ t. Unit {0})
  unfolding free_cells
  free_buffer-total d b heap a =
      let (vt, e, serving) = a.served in
      let (t, run, _) = serving.frees heap b.address in (t, rw e run, tt)
