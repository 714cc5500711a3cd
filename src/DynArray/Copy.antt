-- ===== src/DynArray/Copy.antt =====
-- `dynarray_copy_walloc` makes an array with the same contents.
use c_base.Base.{
  ℕ, ◌≤◌, ◌≡◌, refl, ap, ◌∙◌, List, Option, none, some, Bool, true, false, arith, length, take,
}
use c_base.Base.Run.{Run, ok, ◌>>=◌, Returns}
use c_base.Allocator.{AllocatorVtable, IsServing}
use c_base.Buffer.{Buffer}
use c_base.DynArray.{DynArray, State}
use c_base.DynArray.Reserve.{carried_same}
use c_base.DynArray.Lifecycle.{can_copy, copy_elems, cells_of, dynarray_copy_walloc}
use c_base.DynArray.Store.{alloc_buffer}
use c_base.DynArray.Transfer.{Copies, IsCarried, copy_cells-IsCarried, copy_loop-IsCarried}
use c_base.DynArray.View.{IsArray, contents, buffer_cells, HasCells, alloc_buffer-HasCells}
use c_base.Policy.{ElementPolicy, check_lifetime}

module _ {W E : Type 0} where
  -- Elements that are bytes, or that have a `copy` which leaves in `dest` what is in `src`.
  abbrev pub CopiesBy : Option (ElementPolicy W E) → Type 0
  CopiesBy none = Unit
  CopiesBy (some policy) =
      (copy : W → E → E → Run (E × W)) × (policy.copy ≡ some copy) × Copies copy

  CopiesBy-can : (policy : Option (ElementPolicy W E)) → CopiesBy policy → can_copy policy ≡ true
  CopiesBy-can none c = refl
  CopiesBy-can (some policy) (copy, e, law) = rw e refl

cells_of_lem : {E : Type 0} → (b : Option (Buffer E)) → cells_of b ≡ buffer_cells b
cells_of_lem none = refl
cells_of_lem (some b) = refl

module _ {S W E : Type 0} where
  copy_elems-IsCarried :
      (policy : Option (ElementPolicy W E)) (src : DynArray S W E) (cells : List E) (w : W)
      → CopiesBy policy
      → src.size ≤ length cells
      → src.size ≤ length (cells_of src.buffer)
      → Returns
          (copy_elems policy src cells w)
          (λ r. IsCarried 0 0 src.size cells (cells_of src.buffer) r.0)
  copy_elems-IsCarried none src cells w c h k =
      let (result, run, p) =
        copy_cells-IsCarried src.size 0 0 cells (cells_of src.buffer) (omega arith) (omega arith) in
      ((result, w), rw (run, ◌>>=◌) refl, p)
  copy_elems-IsCarried (some policy) src cells w (copy, e, law) h k =
      let (r, run, p) =
        copy_loop-IsCarried copy law src.size 0 cells (cells_of src.buffer) w (omega arith)
          (omega arith) in
      (r, rw e run, p)

  -- With success the copy is well formed, and has the same contents; without, nothing has changed.
  abbrev pub Copied : DynArray S W E → State S W E → Bool × State S W E → Type 0
  Copied src s (true, t) = IsArray t.array × (contents t.array ≡ contents src)
  Copied src s (false, t) = t.array ≡ s.array

module _ {S W E : Type 0} (fresh : ℕ → ℕ → E) where
  -- On a well-formed source whose elements are bytes or have a `copy` that does not fault and copies,
  -- and for an allocator that serves its alignment, `dynarray_copy_walloc` does not fault. With success
  -- the copy is well formed and holds what the source holds, in the same order; without, the
  -- destination is as it was.
  pub dynarray_copy_walloc-Copied :
      (src : DynArray S W E) (vt : AllocatorVtable S) (s : State S W E)
      (policy : Option (ElementPolicy W E))
      → IsArray src
      → IsServing vt src.alignment
      → check_lifetime src.elem_lifetime ≡ ok policy
      → CopiesBy policy
      → Returns (dynarray_copy_walloc fresh src vt s) (Copied src s)
  unfolding dynarray_copy_walloc
  dynarray_copy_walloc-Copied src vt s policy a serving read law =
      go (alloc_buffer-HasCells fresh from src.capacity s.heap valid a.fits)
    where
      from : DynArray S W E
      from = record src { allocator = some vt }

      valid : IsArray from
      valid = record {
        served = (vt, refl, serving);
        sized = a.sized;
        fits = a.fits;
        room = a.room;
        cells = a.cells;
      }

      held : length (cells_of src.buffer) ≡ src.capacity
      held = ap length (cells_of_lem src.buffer) ∙ a.cells

      go :
          Returns (alloc_buffer fresh from src.capacity s.heap) (HasCells src.capacity)
          → Returns (dynarray_copy_walloc fresh src vt s) (Copied src s)
      go ((none, heap), run, _) = (
        (false, record s { heap = heap }),
        rw (read, ◌>>=◌, CopiesBy-can policy law, run, ◌>>=◌) refl,
        refl,
      )
      go ((some b, heap), run, room) =
          let ((cells, w), copied, p) =
            copy_elems-IsCarried policy src b.cells s.world law (omega (arith, a.room, held))
              (omega (arith, a.room, held)) in
          (
            (
              true,
              record {
                array = record src {
                  buffer = some (record { address = b.address; cells = cells });
                  allocator = some vt;
                };
                heap = heap;
                world = w;
              },
            ),
            rw (read, ◌>>=◌, CopiesBy-can policy law, run, ◌>>=◌, copied, ◌>>=◌) refl,
            (
              record {
                served = (vt, refl, serving);
                sized = a.sized;
                fits = a.fits;
                room = a.room;
                cells = p.same_length ∙ room;
              },
              carried_same src.size b.cells (cells_of src.buffer) cells (omega (arith, a.room))
                    (omega (arith, a.room, held)) p
                  ∙ ap (take src.size) (cells_of_lem src.buffer),
            ),
          )
