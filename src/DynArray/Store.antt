-- ===== src/DynArray/Store.antt =====
-- Allocation of buffers, and the transfer of elements from one buffer to another.
use c_base.Base.{ℕ, zero, suc, ◌+◌, ◌-◌, List, Option, none, some, Bool, true, ◌||◌}
use c_base.Base.Cells.{load, store}
use c_base.Base.Run.{Run, ok, fault, Fault, ◌>>=◌}
use c_base.Policy.{ElementPolicy, is_some}
use c_base.Buffer.{Buffer, alloc_cells, free_cells}
use c_base.DynArray.{DynArray}

module _ {S W E : Type 0} where
  abbrev pub alloc_buffer : (ℕ → ℕ → E) → DynArray S W E → ℕ → S → Run (Option (Buffer E) × S)
  alloc_buffer fresh d capacity heap =
      alloc_cells fresh d.allocator d.elem_size capacity d.alignment heap

  abbrev pub free_buffer : DynArray S W E → Buffer E → S → Run S
  free_buffer d b heap = free_cells d.allocator b heap

module _ {E : Type 0} where
  -- `memcpy` or `memmove` of `left` elements to `dst[to ..]` from `src[from ..]`. For an overlapping
  -- `memmove` both lists are the same: the reads are of the cells as they were.
  unfoldable pub copy_cells : ℕ → ℕ → ℕ → List E → List E → Run (List E)
  copy_cells zero to from dst src = ok dst
  copy_cells (suc left) to from dst src = do
    e ← load src from
    dst' ← store dst to e
    copy_cells left (to + 1) (from + 1) dst' src

module _ {W E : Type 0} where
  -- `for(i; left rounds) policy->move(ctx, dst + i, src + i)`
  unfoldable pub move_loop :
      (W → E → E → Run (E × E × W)) → ℕ → ℕ → List E → List E → W → Run (List E × List E × W)
  move_loop move zero i dst src w = ok (dst, src, w)
  move_loop move (suc left) i dst src w = do
    d ← load dst i
    e ← load src i
    (d', e', w') ← move w d e
    dst' ← store dst i d'
    src' ← store src i e'
    move_loop move left (i + 1) dst' src' w'

  -- `for(i; left rounds) policy->copy(ctx, dst + i, src + i)`
  unfoldable pub copy_loop :
      (W → E → E → Run (E × W)) → ℕ → ℕ → List E → List E → W → Run (List E × W)
  copy_loop copy zero i dst src w = ok (dst, w)
  copy_loop copy (suc left) i dst src w = do
    d ← load dst i
    e ← load src i
    (d', w') ← copy w d e
    dst' ← store dst i d'
    copy_loop copy left (i + 1) dst' src w'

  -- `for(i; left rounds) f(ctx, cells + i)`, where `f` is a constructor or a destructor
  unfoldable pub each_loop : (W → E → Run (E × W)) → ℕ → ℕ → List E → W → Run (List E × W)
  each_loop f zero i cells w = ok (cells, w)
  each_loop f (suc left) i cells w = do
    e ← load cells i
    (e', w') ← f w e
    cells' ← store cells i e'
    each_loop f left (i + 1) cells' w'

  -- The loop of `dynarray_insert` that moves the cells from `i - 1` down one place up.
  unfoldable pub move_up_loop :
      (W → E → E → Run (E × E × W)) → ℕ → ℕ → List E → W → Run (List E × W)
  move_up_loop move zero i cells w = ok (cells, w)
  move_up_loop move (suc left) i cells w = do
    d ← load cells i
    e ← load cells (i - 1)
    (d', e', w') ← move w d e
    cells₁ ← store cells i d'
    cells₂ ← store cells₁ (i - 1) e'
    move_up_loop move left (i - 1) cells₂ w'

  unfoldable pub copy_up_loop : (W → E → E → Run (E × W)) → ℕ → ℕ → List E → W → Run (List E × W)
  copy_up_loop copy zero i cells w = ok (cells, w)
  copy_up_loop copy (suc left) i cells w = do
    d ← load cells i
    e ← load cells (i - 1)
    (d', w') ← copy w d e
    cells' ← store cells i d'
    copy_up_loop copy left (i - 1) cells' w'

  -- The loop of `dynarray_remove` that moves the cells from `i` on one place down.
  unfoldable pub move_down_loop :
      (W → E → E → Run (E × E × W)) → ℕ → ℕ → List E → W → Run (List E × W)
  move_down_loop move zero i cells w = ok (cells, w)
  move_down_loop move (suc left) i cells w = do
    d ← load cells (i - 1)
    e ← load cells i
    (d', e', w') ← move w d e
    cells₁ ← store cells (i - 1) d'
    cells₂ ← store cells₁ i e'
    move_down_loop move left (i + 1) cells₂ w'

  unfoldable pub copy_down_loop : (W → E → E → Run (E × W)) → ℕ → ℕ → List E → W → Run (List E × W)
  copy_down_loop copy zero i cells w = ok (cells, w)
  copy_down_loop copy (suc left) i cells w = do
    d ← load cells (i - 1)
    e ← load cells i
    (d', w') ← copy w d e
    cells' ← store cells (i - 1) d'
    copy_down_loop copy left (i + 1) cells' w'

  -- The transfer of the elements to a new buffer in `dynarray_reserve` and `dynarray_shrink_to_fit`:
  -- as bytes, by `move`, or else by `copy`, which is called without a test.
  unfoldable pub relocate : Option (ElementPolicy W E) → ℕ → List E → List E → W → Run (List E × W)
  unfolding copy_cells move_loop copy_loop
  relocate none n dst src w = do cells ← copy_cells n 0 0 dst src; ok (cells, w)
  relocate (some policy) n dst src w = elim policy.move [
    | some move ↦ do (cells, _, w') ← move_loop move n 0 dst src w; ok (cells, w')
    | none ↦ elim policy.copy [
      | some copy ↦ copy_loop copy n 0 dst src w
      | none ↦ fault Fault.bad_pointer
    ]
  ]

  -- `!lifetime || policy->move || policy->copy`
  abbrev pub can_relocate : Option (ElementPolicy W E) → Bool
  can_relocate none = true
  can_relocate (some policy) = is_some policy.move || is_some policy.copy
