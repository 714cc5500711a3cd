-- ===== src/DynArray/Insert.antt =====
-- `dynarray_insert` of elements of every kind.
use c_base.Base.{
  ℕ, ◌+◌, ◌-◌, ◌*◌, ◌≤◌, ◌<◌, ◌≡◌, refl, ap, ◌∙◌, List, Option, none, some, true, false, arith,
  length, set, get_elem?_in_range, leb,
}
use c_base.Base.Cells.{load-ok, store-ok}
use c_base.Base.Run.{Run, ok, ◌>>=◌, Returns}
use c_base.Base.Word.{add_size}
use c_base.Buffer.{Buffer}
use c_base.DynArray.{State}
use c_base.DynArray.Edit.{with_size, insert_with, move_in, copy_in, dynarray_insert}
use c_base.DynArray.Erase.{holding, each_one, IsDestroying}
use c_base.DynArray.Grow.{IsRequest, dynarray_ensure_capacity-Reserved}
use c_base.DynArray.Reserve.{Reserved, times_le}
use c_base.DynArray.Push.{buffer_of}
use c_base.DynArray.Shift.{
  MaybeInserted, gap-MaybeInserted, insert_at, dynarray_insert_bytes-MaybeInserted,
}
use c_base.DynArray.Size.{dtor_of, dynarray_ensure_capacity}
use c_base.DynArray.Transfer.{Transfers, Carries}
use c_base.DynArray.Up.{IsRaised, IsRaised-around, copy_up_loop-IsRaised, move_up_loop-IsRaised}
use c_base.DynArray.View.{IsArray, contents, Carries-can}
use c_base.Policy.{ElementPolicy, check_lifetime}

module _ {S W E : Type 0} where
  -- The shift and the transfer of the element, in either way.
  insert_by :
      (policy : ElementPolicy W E) (move : Option (W → E → E → Run (E × E × W)))
      (copy : Option (W → E → E → Run (E × W))) (t : State S W E) (b : Buffer E) (index : ℕ)
      (elem : E)
      → policy.move ≡ move
      → policy.copy ≡ copy
      → Transfers move copy
      → IsDestroying policy.dtor
      → t.array.buffer ≡ some b
      → index ≤ t.array.size
      → t.array.size < length b.cells
      → (raised : List E) × (put : E) × (elem' : E) × (w : W) × (insert_with policy index elem t
          ≡ ok (elem', holding t b (set raised index put) w))
        × IsRaised index (t.array.size - index) b.cells raised
        × (put ≡ elem)
  unfolding insert_with move_in copy_in
  insert_by policy (some move) copy t b index elem em ec law total at h fits =
      let ((cells, w), run, c) =
        move_up_loop-IsRaised move law (t.array.size - index) index b.cells t.world t.array.size
          (omega arith) (omega arith) in
      let (d, read) = get_elem?_in_range cells index (omega (arith, c.same_length)) in
      let ((put, elem', w'), moved, same) = law w d elem in
      (
        cells,
        put,
        elem',
        w',
        rw
            (
              at,
              em,
              run,
              ◌>>=◌,
              load-ok cells index d read,
              ◌>>=◌,
              moved,
              ◌>>=◌,
              store-ok cells index put (omega (arith, c.same_length)),
              ◌>>=◌,
            )
            refl,
        c,
        same,
      )
  insert_by policy none (some copy) t b index elem em ec law total at h fits =
      let ((cells, w), run, c) =
        copy_up_loop-IsRaised copy law (t.array.size - index) index b.cells t.world t.array.size
          (omega arith) (omega arith) in
      let (raised, w₁, gone, (long, around)) =
        each_one policy.dtor (holding t b cells w) (record { address = b.address; cells = cells })
          index total refl (omega (arith, c.same_length)) in
      let (d, read) = get_elem?_in_range raised index (omega (arith, c.same_length, long)) in
      let ((put, w'), copied, same) = law w₁ d elem in
      (
        raised,
        put,
        elem,
        w',
        rw
            (
              at,
              em,
              ec,
              run,
              ◌>>=◌,
              gone,
              ◌>>=◌,
              load-ok raised index d read,
              ◌>>=◌,
              copied,
              ◌>>=◌,
              store-ok raised index put (omega (arith, c.same_length, long)),
              ◌>>=◌,
            )
            refl,
        IsRaised-around index (t.array.size - index) b.cells cells raised c around long,
        same,
      )
  insert_by policy none none t b index elem em ec law total at h fits = elim law [ ]

module _ {S W E : Type 0} (fresh : ℕ → ℕ → E) (index : ℕ) (elem : E) (s : State S W E) where
  -- On a well-formed array whose elements carry over and whose destructor, if there is one, does not
  -- fault, for an index of at most the size, if twice the new size in bytes does not wrap,
  -- `dynarray_insert` does not fault. With success the array is well formed and holds the element at
  -- the index, behind those that were before it and before the others; without, the array is as it
  -- was.
  pub dynarray_insert-MaybeInserted :
      (policy : Option (ElementPolicy W E))
      → IsArray s.array
      → check_lifetime s.array.elem_lifetime ≡ ok policy
      → Carries policy
      → IsDestroying (dtor_of policy)
      → index ≤ s.array.size
      → IsRequest fresh s (s.array.size + 1)
      → Returns (dynarray_insert fresh index elem s) (MaybeInserted index elem s)
  unfolding dynarray_insert
  dynarray_insert-MaybeInserted none a read law total h fits =
      dynarray_insert_bytes-MaybeInserted fresh index elem s a read h fits
  dynarray_insert-MaybeInserted (some policy) a read law total h fits = go (
      dynarray_ensure_capacity-Reserved fresh (add_size s.array.size 1) s a (some policy, read, law)
        (rw plain fits))
    where
      plain : add_size s.array.size 1 ≡ s.array.size + 1
      plain = omega (
        arith,
        fits,
        times_le (2 * (s.array.size + 1)) (2 * (s.array.size + 1)) 1 s.array.elem_size (omega arith)
            (omega (arith, a.sized)),
      )

      inside : leb index s.array.size ≡ true
      inside = ground arith

      go :
          Returns
            (dynarray_ensure_capacity fresh (add_size s.array.size 1) s)
            (Reserved (add_size s.array.size 1) s)
          → Returns (dynarray_insert fresh index elem s) (MaybeInserted index elem s)
      go ((false, t), run, same) =
          ((false, elem, t), rw (inside, ◌>>=◌, read, ◌>>=◌, run, ◌>>=◌) refl, same)
      go ((true, t), run, (kept, room)) =
          let (b, at, held) = buffer_of t kept.array (omega (arith, plain)) in
          let (raised, put, elem', w, done, c, same) =
            insert_by policy policy.move policy.copy t b index elem refl refl law total at
              (omega (arith, kept.size)) (omega (arith, plain, kept.size)) in
          let p =
            gap-MaybeInserted index put elem' t b raised kept.array (omega (arith, kept.size))
              (omega (arith, plain, kept.size)) at held c in
          (
            (
              true,
              elem',
              with_size (holding t b (set raised index put) w) (add_size t.array.size 1),
            ),
            rw (inside, ◌>>=◌, read, ◌>>=◌, run, ◌>>=◌, Carries-can (some policy) law, done, ◌>>=◌)
                refl,
            (
              p.0,
              p.1
                  ∙ ap (insert_at index put) kept.same
                  ∙ ap (λ x. insert_at index x (contents s.array)) same,
            ),
          )
