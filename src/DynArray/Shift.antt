-- ===== src/DynArray/Shift.antt =====
-- `dynarray_insert` and `dynarray_remove` of elements that are bytes, as operations on lists.
use c_base.Base.{
  ℕ, zero, suc, ◌+◌, ◌-◌, ◌*◌, ◌≤◌, ◌<◌, ◌≡◌, refl, ap, sym, ◌∙◌, List, ◌∷◌, ◌++◌, none, some, Bool,
  true, false, arith, length, take, drop, set, take_two, take-take, get_elem?, get_elem?-take,
  get_elem?-drop, get_elem?-set_self, get_elem?-set_ne, length-set, length-take, length-drop, leb,
  ltb,
}
use c_base.Base.Cells.{store-ok}
use c_base.Base.Run.{ok, ◌>>=◌, Returns}
use c_base.Base.Word.{add_size}
use c_base.Buffer.{Buffer}
use c_base.DynArray.{State}
use c_base.DynArray.Down.{IsLowered, IsCarried-IsLowered}
use c_base.DynArray.Edit.{with_cells, with_size, dynarray_insert, dynarray_remove}
use c_base.DynArray.Grow.{IsRequest, dynarray_ensure_capacity-Reserved}
use c_base.DynArray.Reserve.{Reserved, times_le}
use c_base.DynArray.Push.{buffer_of, size_fits}
use c_base.DynArray.Size.{dynarray_ensure_capacity}
use c_base.DynArray.Transfer.{copy_cells-IsCarried}
use c_base.DynArray.Up.{IsRaised, IsCarried-IsRaised}
use c_base.DynArray.View.{IsArray, contents, buffer_cells}
use c_base.Policy.{check_lifetime}

module _ {E : Type 0} where
  abbrev pub insert_at : ℕ → E → List E → List E
  insert_at i e xs = take i xs ++ e ∷ drop i xs

  abbrev pub erase_at : ℕ → List E → List E
  erase_at i xs = take i xs ++ drop (i + 1) xs

  -- a read of what stands behind the first `i` of the first `n` cells
  get_behind :
      (i k n : ℕ) (xs : List E)
      → i + k < n
      → get_elem? (drop i (take n xs)) k ≡ get_elem? xs (i + k)
  get_behind i k n xs h = get_elem?-drop i k (take n xs) ∙ get_elem?-take n (i + k) xs h

  inserted :
      (i n m : ℕ) (e : E) (cells moved : List E)
      → i ≤ n
      → n < length cells
      → m ≡ suc n
      → IsRaised i (n - i) cells moved
      → take m (set moved i e) ≡ insert_at i e (take n cells)
  inserted i n m e cells moved h fits count c =
      take_two i m cells (e ∷ drop i (take n cells)) (set moved i e)
        (omega (arith, length-drop i (take n cells) (omega (arith, held)), held)) (omega arith)
        (omega (arith, length-set moved i e, c.same_length))
        (λ j lt. get_elem?-set_ne moved i j e (omega arith) ∙ c.before j lt) after
      ∙ ap (λ ys. ys ++ e ∷ drop i (take n cells)) (sym (take-take i n cells h))
    where
      held : length (take n cells) ≡ n
      held = length-take n cells (omega arith)

      after :
          (k : ℕ)
          → k < length (e ∷ drop i (take n cells))
          → get_elem? (set moved i e) (i + k) ≡ get_elem? (e ∷ drop i (take n cells)) k
      after zero lt =
          ap (get_elem? (set moved i e)) {x = i + 0} {y = i} (omega arith)
          ∙ get_elem?-set_self moved i e (omega (arith, c.same_length))
      after (suc k) lt =
          let short : i + k < n =
            omega (arith, length-drop i (take n cells) (omega (arith, held)), held) in
          get_elem?-set_ne moved i (i + suc k) e (omega arith)
          ∙ ap (get_elem? moved) {x = i + suc k} {y = i + 1 + k} (omega arith)
          ∙ c.inside k (omega arith)
          ∙ sym (get_behind i k n cells short)

  pub erased :
      (i n m : ℕ) (cells moved : List E)
      → i < n
      → n ≤ length cells
      → suc m ≡ n
      → IsLowered i (n - i - 1) cells moved
      → take m moved ≡ erase_at i (take n cells)
  erased i n m cells moved h fits count c =
      take_two i m cells (drop (i + 1) (take n cells)) moved
        (omega (arith, length-drop (i + 1) (take n cells) (omega (arith, held)), held))
        (omega arith) (omega (arith, c.same_length)) c.before
        (λ k lt.
          let short : i + 1 + k < n =
            omega (arith, length-drop (i + 1) (take n cells) (omega (arith, held)), held) in
          c.inside k (omega arith) ∙ sym (get_behind (i + 1) k n cells short))
      ∙ ap (λ ys. ys ++ drop (i + 1) (take n cells)) (sym (take-take i n cells (omega arith)))
    where
      held : length (take n cells) ≡ n
      held = length-take n cells fits

module _ {S W E : Type 0} where
  abbrev pub Removed : ℕ → State S W E → Bool × State S W E → Type 0
  Removed index s (done, t) =
      (done ≡ true) × IsArray t.array × (contents t.array ≡ erase_at index (contents s.array))

  -- For elements that are bytes and an index below the size, `dynarray_remove` does not fault and
  -- succeeds; the array is well formed and holds its other elements in the same order.
  pub dynarray_remove_bytes-Removed :
      (index : ℕ) (s : State S W E)
      → IsArray s.array
      → check_lifetime s.array.elem_lifetime ≡ ok none
      → index < s.array.size
      → Returns (dynarray_remove index s) (Removed index s)
  unfolding dynarray_remove
  dynarray_remove_bytes-Removed index s a read h =
      let (b, at, held) = buffer_of s a (omega (arith, a.room)) in
      let (cells, run, c) =
        copy_cells-IsCarried (s.array.size - index - 1) index (index + 1) b.cells b.cells
          (omega (arith, a.room)) (omega (arith, a.room)) in
      let inside : ltb index s.array.size ≡ true = ground arith in
      (
        (true, with_size (with_cells s b cells) (s.array.size - 1)),
        rw (inside, ◌>>=◌, read, ◌>>=◌, at, ◌>>=◌, run, ◌>>=◌) refl,
        (
          refl,
          record {
            served = a.served;
            sized = a.sized;
            fits = a.fits;
            room = omega (arith, a.room);
            cells = c.same_length ∙ held;
          },
          erased index s.array.size (s.array.size - 1) b.cells cells h (omega (arith, a.room))
                (omega arith) (IsCarried-IsLowered index (s.array.size - index - 1) b.cells cells c)
              ∙ ap (λ o. erase_at index (take s.array.size (buffer_cells o))) (sym at),
        ),
      )

  -- With success the element is at the index, between those before and those from there on; without,
  -- the array is as it was.
  abbrev pub MaybeInserted : ℕ → E → State S W E → Bool × E × State S W E → Type 0
  MaybeInserted index e s (true, _, t) =
      IsArray t.array × (contents t.array ≡ insert_at index e (contents s.array))
  MaybeInserted index e s (false, _, t) = t.array ≡ s.array

  abbrev gap : State S W E → Buffer E → List E → State S W E
  gap t b cells = with_size (with_cells t b cells) (add_size t.array.size 1)

  pub gap-MaybeInserted :
      (index : ℕ) (e e' : E) (t : State S W E) (b : Buffer E) (moved : List E)
      → IsArray t.array
      → index ≤ t.array.size
      → t.array.size < t.array.capacity
      → t.array.buffer ≡ some b
      → length b.cells ≡ t.array.capacity
      → IsRaised index (t.array.size - index) b.cells moved
      → MaybeInserted index e t (true, e', gap t b (set moved index e))
  gap-MaybeInserted index e e' t b moved a h room at held c = (
    record {
      served = a.served;
      sized = a.sized;
      fits = a.fits;
      room = omega (arith, counted);
      cells = length-set moved index e ∙ c.same_length ∙ held;
    },
    inserted index t.array.size (add_size t.array.size 1) e b.cells moved h (omega arith) counted c
        ∙ ap (λ o. insert_at index e (take t.array.size (buffer_cells o))) (sym at),
  )
    where
      counted : add_size t.array.size 1 ≡ suc t.array.size
      counted = omega (arith, size_fits t a)

module _ {S W E : Type 0} (fresh : ℕ → ℕ → E) where
  -- For elements that are bytes and an index of at most the size, if twice the new size in bytes does
  -- not wrap, `dynarray_insert` does not fault. With success the array is well formed and holds the
  -- element at the index, behind those that were before it and before the others; without, the
  -- array is as it was.
  pub dynarray_insert_bytes-MaybeInserted :
      (index : ℕ) (e : E) (s : State S W E)
      → IsArray s.array
      → check_lifetime s.array.elem_lifetime ≡ ok none
      → index ≤ s.array.size
      → IsRequest fresh s (s.array.size + 1)
      → Returns (dynarray_insert fresh index e s) (MaybeInserted index e s)
  unfolding dynarray_insert
  dynarray_insert_bytes-MaybeInserted index e s a read h fits = go (
      dynarray_ensure_capacity-Reserved fresh (add_size s.array.size 1) s a (none, read, tt)
        (rw plain fits))
    where
      plain : add_size s.array.size 1 ≡ s.array.size + 1
      plain = omega (
        arith,
        fits,
        times_le (2 * (s.array.size + 1)) (2 * (s.array.size + 1)) 1 s.array.elem_size (omega arith)
            (omega (arith, a.sized)),
      )

      inside : leb index s.array.size ≡ true
      inside = ground arith

      go :
          Returns
            (dynarray_ensure_capacity fresh (add_size s.array.size 1) s)
            (Reserved (add_size s.array.size 1) s)
          → Returns (dynarray_insert fresh index e s) (MaybeInserted index e s)
      go ((false, t), run, same) =
          ((false, e, t), rw (inside, ◌>>=◌, read, ◌>>=◌, run, ◌>>=◌) refl, same)
      go ((true, t), run, (kept, room)) =
          let (b, at, held) = buffer_of t kept.array (omega (arith, plain)) in
          let (moved, shifted, c) =
            copy_cells-IsCarried (t.array.size - index) (index + 1) index b.cells b.cells
              (omega (arith, plain, kept.size)) (omega (arith, plain, kept.size)) in
          let p =
            gap-MaybeInserted index e e t b moved kept.array (omega (arith, kept.size))
              (omega (arith, plain, kept.size)) at held
              (IsCarried-IsRaised index (t.array.size - index) b.cells moved c) in
          (
            (true, e, gap t b (set moved index e)),
            rw
                (
                  inside,
                  ◌>>=◌,
                  read,
                  ◌>>=◌,
                  run,
                  ◌>>=◌,
                  at,
                  ◌>>=◌,
                  shifted,
                  ◌>>=◌,
                  store-ok moved index e (omega (arith, c.same_length, plain, kept.size)),
                  ◌>>=◌,
                )
                refl,
            (p.0, p.1 ∙ ap (insert_at index e) kept.same),
          )
