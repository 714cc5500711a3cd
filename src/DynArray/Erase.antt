-- ===== src/DynArray/Erase.antt =====
-- `dynarray_remove` of elements of every kind.
use c_base.Base.{
  ℕ, ◌-◌, ◌≤◌, ◌<◌, ◌≡◌, ◌≢◌, refl, ap, sym, ◌∙◌, List, Option, none, some, true, arith, length,
  get_elem?, set, length-set, get_elem?-set_ne, get_elem?_in_range, lt→ltb, take,
}
use c_base.Base.Cells.{load-ok, store-ok}
use c_base.Base.Run.{Run, ok, ◌>>=◌, Returns}
use c_base.Buffer.{Buffer}
use c_base.DynArray.{State}
use c_base.DynArray.Down.{
  IsLowered, IsLowered-around, copy_down_loop-IsLowered, move_down_loop-IsLowered,
}
use c_base.DynArray.Edit.{with_cells, with_size, remove_with, dynarray_remove}
use c_base.DynArray.Push.{buffer_of}
use c_base.DynArray.Shift.{Removed, erased, erase_at, dynarray_remove_bytes-Removed}
use c_base.DynArray.Size.{each_cell, dtor_of}
use c_base.DynArray.Store.{each_loop}
use c_base.DynArray.Transfer.{Transfers, Carries}
use c_base.DynArray.View.{IsArray, buffer_cells, Carries-can}
use c_base.Policy.{ElementPolicy, check_lifetime}

module _ {W E : Type 0} where
  -- There is no destructor, or it does not fault.
  abbrev pub IsDestroying : Option (W → E → Run (E × W)) → Type 0
  IsDestroying none = Unit
  IsDestroying (some f) = (w : W) (e : E) → Returns (f w e) (λ r. Unit {0})

-- One cell may have changed, and nothing else.
abbrev pub Around : {E : Type 0} → ℕ → List E → List E → Type 0
Around i cells cells' =
    (length cells' ≡ length cells) × ((j : ℕ) → j ≢ i → get_elem? cells' j ≡ get_elem? cells j)

module _ {S W E : Type 0} where
  abbrev pub holding : State S W E → Buffer E → List E → W → State S W E
  holding s b cells w = record (with_cells s b cells) { world = w }

  pub each_one :
      (dtor : Option (W → E → Run (E × W))) (s : State S W E) (b : Buffer E) (i : ℕ)
      → IsDestroying dtor
      → s.array.buffer ≡ some b
      → i < length b.cells
      → (cells : List E) × (w : W) × (each_cell dtor i 1 s ≡ ok (holding s b cells w))
        × Around i b.cells cells
  unfolding each_cell each_loop
  each_one none s b i total at h = (
    b.cells,
    s.world,
    ap (λ o. ok (record s { array = record (s.array) { buffer = o } })) at,
    (refl, λ j ne. refl),
  )
  each_one (some f) s b i total at h =
      let (e, read) = get_elem?_in_range b.cells i h in
      let ((e', w), run, _) = total s.world e in
      (
        set b.cells i e',
        w,
        rw (at, load-ok b.cells i e read, ◌>>=◌, run, ◌>>=◌, store-ok b.cells i e' h, ◌>>=◌) refl,
        (length-set b.cells i e', λ j ne. get_elem?-set_ne b.cells i j e' (λ q. ne (sym q))),
      )

  -- the shift, after the destructor, in either way
  remove_by :
      (policy : ElementPolicy W E) (move : Option (W → E → E → Run (E × E × W)))
      (copy : Option (W → E → E → Run (E × W))) (s : State S W E) (b : Buffer E) (index : ℕ)
      (cells : List E) (w : W)
      → policy.move ≡ move
      → policy.copy ≡ copy
      → Transfers move copy
      → IsDestroying policy.dtor
      → index < s.array.size
      → s.array.size ≤ length cells
      → (low : List E) × (result : List E) × (w' : W) × (remove_with policy index
            (holding s b cells w)
          ≡ ok (holding s b result w'))
        × IsLowered index (s.array.size - index - 1) cells low
        × Around (s.array.size - 1) low result
  unfolding remove_with
  remove_by policy (some move) copy s b index cells w em ec law total h fits =
      let ((low, w'), run, c) =
        move_down_loop-IsLowered move law (s.array.size - index - 1) index cells w (omega arith) in
      (low, low, w', rw (em, run, ◌>>=◌) refl, c, (refl, λ j ne. refl))
  remove_by policy none (some copy) s b index cells w em ec law total h fits =
      let ((low, w₁), run, c) =
        copy_down_loop-IsLowered copy law (s.array.size - index - 1) index cells w (omega arith) in
      let mid : State S W E = holding s b low w₁ in
      let (result, w₂, last, around) =
        each_one policy.dtor mid (record { address = b.address; cells = low }) (s.array.size - 1)
          total refl (omega (arith, c.same_length)) in
      (low, result, w₂, rw (em, ec, run, ◌>>=◌) last, c, around)
  remove_by policy none none s b index cells w em ec law total h fits = elim law [ ]

  -- For an index below the size of a well-formed array whose elements carry over and whose destructor, if
  -- there is one, does not fault, `dynarray_remove` does not fault and succeeds; the array is well
  -- formed and holds its other elements in the same order.
  pub dynarray_remove-Removed :
      (index : ℕ) (s : State S W E) (policy : Option (ElementPolicy W E))
      → IsArray s.array
      → check_lifetime s.array.elem_lifetime ≡ ok policy
      → Carries policy
      → IsDestroying (dtor_of policy)
      → index < s.array.size
      → Returns (dynarray_remove index s) (Removed index s)
  unfolding dynarray_remove
  dynarray_remove-Removed index s none a read law total h =
      dynarray_remove_bytes-Removed index s a read h
  dynarray_remove-Removed index s (some policy) a read law total h =
      let (b, at, held) = buffer_of s a (omega (arith, a.room)) in
      let (cells, w, first, (long, around)) =
        each_one policy.dtor s b index total at (omega (arith, a.room)) in
      let (low, result, w', shifted, c, (long', around')) =
        remove_by policy policy.move policy.copy s b index cells w refl refl law total h
          (omega (arith, a.room)) in
      let lowered : IsLowered index (s.array.size - index - 1) b.cells result =
        IsLowered-around index (s.array.size - index - 1) b.cells cells low result around long c
          (λ j ne. around' j (omega arith)) long' in
      (
        (true, with_size (holding s b result w') (s.array.size - 1)),
        rw
            (
              lt→ltb index s.array.size h,
              ◌>>=◌,
              read,
              ◌>>=◌,
              Carries-can (some policy) law,
              first,
              ◌>>=◌,
              shifted,
              ◌>>=◌,
            )
            refl,
        (
          refl,
          record {
            served = a.served;
            sized = a.sized;
            fits = a.fits;
            room = omega (arith, a.room);
            cells = lowered.same_length ∙ held;
          },
          erased index s.array.size (s.array.size - 1) b.cells result h (omega (arith, a.room))
                (omega arith) lowered
              ∙ ap (λ o. erase_at index (take s.array.size (buffer_cells o))) (sym at),
        ),
      )
