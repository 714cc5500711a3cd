-- ===== src/DynArray/Push.antt =====
-- `dynarray_push` and `dynarray_append` as operations on lists.
use c_base.Base.{
  ℕ, suc, ◌+◌, ◌*◌, ◌<◌, ◌≡◌, refl, ap, sym, ◌∙◌, ◌⊎◌, inl, inr, List, [], ◌∷◌, ◌++◌, Option, none,
  some, Bool, true, false, arith, length, take, set, take-set, length-set, get_elem?_in_range,
  Option-cases,
}
use c_base.Base.Cells.{load-ok, store-ok}
use c_base.Base.Run.{Run, ok, ◌>>=◌, Returns}
use c_base.Base.Word.{word_mod, add_size}
use c_base.Buffer.{Buffer}
use c_base.DynArray.{State}
use c_base.DynArray.Edit.{with_cells, with_size, dynarray_push_unchecked, dynarray_push}
use c_base.DynArray.Size.{dynarray_ensure_capacity}
use c_base.DynArray.Grow.{IsRequest, dynarray_ensure_capacity-Reserved}
use c_base.DynArray.Reserve.{Reserved, times_le}
use c_base.DynArray.Transfer.{Transfers}
use c_base.DynArray.View.{IsArray, IsCarrying, contents, buffer_cells, read_of_check}
use c_base.Policy.{ElementPolicy, check_lifetime, read_lifetime}

module _ {S W E : Type 0} where
  -- The array holds `es` behind what it held.
  pub record IsPushed (es : List E) (s t : State S W E) : Type 0 where
    pub array : IsArray t.array
    pub added : contents t.array ≡ contents s.array ++ es
    pub size : t.array.size ≡ s.array.size + length es
    pub capacity : t.array.capacity ≡ s.array.capacity
    pub lifetime : t.array.elem_lifetime ≡ s.array.elem_lifetime

  -- An array with room has a buffer.
  pub buffer_of :
      (s : State S W E)
      → IsArray s.array
      → 0 < s.array.capacity
      → (b : Buffer E) × (s.array.buffer ≡ some b) × (length b.cells ≡ s.array.capacity)
  buffer_of s a pos = go (Option-cases s.array.buffer)
    where
      go :
          (s.array.buffer ≡ none) ⊎ ((b : Buffer E) × (s.array.buffer ≡ some b))
          → (b : Buffer E) × (s.array.buffer ≡ some b) × (length b.cells ≡ s.array.capacity)
      go (inl e) = absurd (omega (arith, ap (λ o. length (buffer_cells o)) e, a.cells))
      go (inr (b, e)) = (b, e, ap (λ o. length (buffer_cells o)) (sym e) ∙ a.cells)

  pub size_fits : (s : State S W E) → IsArray s.array → s.array.capacity < word_mod
  size_fits s a = omega (
    arith,
    a.fits,
    times_le s.array.capacity s.array.capacity 1 s.array.elem_size (omega arith)
        (omega (arith, a.sized)),
  )

  -- the state in which the first free cell has been written and counted
  abbrev wrote : State S W E → Buffer E → E → W → State S W E
  wrote s b d w =
      with_size (record (with_cells s b (set b.cells s.array.size d)) { world = w })
        (add_size s.array.size 1)

  wrote-IsPushed :
      (s : State S W E) (b : Buffer E) (e d : E) (w : W)
      → IsArray s.array
      → s.array.size < s.array.capacity
      → s.array.buffer ≡ some b
      → length b.cells ≡ s.array.capacity
      → d ≡ e
      → IsPushed (e ∷ []) s (wrote s b d w)
  wrote-IsPushed s b e d w a room at held same = record {
    array = record {
      served = a.served;
      sized = a.sized;
      fits = a.fits;
      room = omega (arith, counted);
      cells = length-set b.cells s.array.size d ∙ held;
    };
    added =
        ap (λ n. take n (set b.cells s.array.size d)) counted
        ∙ take-set s.array.size b.cells d (omega arith)
        ∙ ap (λ o. take s.array.size (buffer_cells o) ++ d ∷ []) (sym at)
        ∙ ap (λ x. contents s.array ++ x ∷ []) same;
    size = counted ∙ omega arith;
    capacity = refl;
    lifetime = refl;
  }
    where
      counted : add_size s.array.size 1 ≡ suc s.array.size
      counted = omega (arith, size_fits s a)

  abbrev pub Pushed : E → State S W E → Bool × E × State S W E → Type 0
  Pushed e s (done, e', t) = (done ≡ true) × IsPushed (e ∷ []) s t

  -- the three ways to write the element, by what the policy has
  push_by :
      (e : E) (s : State S W E) (policy : ElementPolicy W E)
      (move : Option (W → E → E → Run (E × E × W))) (copy : Option (W → E → E → Run (E × W)))
      → read_lifetime s.array.elem_lifetime ≡ ok (some policy)
      → policy.move ≡ move
      → policy.copy ≡ copy
      → Transfers move copy
      → IsArray s.array
      → s.array.size < s.array.capacity
      → Returns (dynarray_push_unchecked e s) (Pushed e s)
  unfolding dynarray_push_unchecked
  push_by e s policy (some move) copy read em ec law a room =
      let (b, at, held) = buffer_of s a (omega arith) in
      let (d, cell) = get_elem?_in_range b.cells s.array.size (omega arith) in
      let ((d', e', w), run, same) = law s.world d e in
      (
        (true, e', wrote s b d' w),
        rw
            (
              read,
              ◌>>=◌,
              em,
              at,
              ◌>>=◌,
              load-ok b.cells s.array.size d cell,
              ◌>>=◌,
              run,
              ◌>>=◌,
              store-ok b.cells s.array.size d' (omega arith),
              ◌>>=◌,
            )
            refl,
        (refl, wrote-IsPushed s b e d' w a room at held same),
      )
  push_by e s policy none (some copy) read em ec law a room =
      let (b, at, held) = buffer_of s a (omega arith) in
      let (d, cell) = get_elem?_in_range b.cells s.array.size (omega arith) in
      let ((d', w), run, same) = law s.world d e in
      (
        (true, e, wrote s b d' w),
        rw
            (
              read,
              ◌>>=◌,
              em,
              ec,
              at,
              ◌>>=◌,
              load-ok b.cells s.array.size d cell,
              ◌>>=◌,
              run,
              ◌>>=◌,
              store-ok b.cells s.array.size d' (omega arith),
              ◌>>=◌,
            )
            refl,
        (refl, wrote-IsPushed s b e d' w a room at held same),
      )
  push_by e s policy none none read em ec law a room = elim law [ ]

  -- On a well-formed array with room for one more, whose elements carry over,
  -- `dynarray_push_unchecked` does not fault, succeeds, and appends the element.
  pub dynarray_push_unchecked-Pushed :
      (e : E) (s : State S W E)
      → IsArray s.array
      → IsCarrying s.array.elem_lifetime
      → s.array.size < s.array.capacity
      → Returns (dynarray_push_unchecked e s) (Pushed e s)
  unfolding dynarray_push_unchecked
  dynarray_push_unchecked-Pushed e s a (none, read, c) room =
      let (b, at, held) = buffer_of s a (omega arith) in
      (
        (true, e, wrote s b e s.world),
        rw
            (
              read_of_check s.array.elem_lifetime none read,
              ◌>>=◌,
              at,
              ◌>>=◌,
              store-ok b.cells s.array.size e (omega arith),
              ◌>>=◌,
            )
            refl,
        (refl, wrote-IsPushed s b e e s.world a room at held refl),
      )
  dynarray_push_unchecked-Pushed e s a (some policy, read, c) room =
      push_by e s policy policy.move policy.copy
        (read_of_check s.array.elem_lifetime (some policy) read) refl refl c a room

module _ {S W E : Type 0} where
  -- With success the element is behind what the array held; without, the array is as it was.
  abbrev pub MaybePushed : E → State S W E → Bool × E × State S W E → Type 0
  MaybePushed e s (true, _, t) = IsArray t.array × (contents t.array ≡ contents s.array ++ e ∷ [])
  MaybePushed e s (false, _, t) = t.array ≡ s.array

module _ {S W E : Type 0} (fresh : ℕ → ℕ → E) where
  -- On a well-formed array whose elements carry over, if twice the new size in bytes does not wrap,
  -- `dynarray_push` does not fault. With success the array is well formed and holds what it held and
  -- then the element; without, the array is as it was.
  pub dynarray_push-MaybePushed :
      (e : E) (s : State S W E)
      → IsArray s.array
      → IsCarrying s.array.elem_lifetime
      → IsRequest fresh s (s.array.size + 1)
      → Returns (dynarray_push fresh e s) (MaybePushed e s)
  unfolding dynarray_push
  dynarray_push-MaybePushed e s a (policy, read, c) h = go (
      dynarray_ensure_capacity-Reserved fresh (add_size s.array.size 1) s a (policy, read, c)
        (rw plain h))
    where
      plain : add_size s.array.size 1 ≡ s.array.size + 1
      plain = omega (
        arith,
        h,
        times_le (2 * (s.array.size + 1)) (2 * (s.array.size + 1)) 1 s.array.elem_size (omega arith)
            (omega (arith, a.sized)),
      )

      go :
          Returns
            (dynarray_ensure_capacity fresh (add_size s.array.size 1) s)
            (Reserved (add_size s.array.size 1) s)
          → Returns (dynarray_push fresh e s) (MaybePushed e s)
      go ((false, t), run, same) = ((false, e, t), rw (read, ◌>>=◌, run, ◌>>=◌) refl, same)
      go ((true, t), run, (kept, room)) =
          let ((done, e', u), pushed, p) =
            dynarray_push_unchecked-Pushed e t kept.array
              (policy, ap check_lifetime kept.lifetime ∙ read, c)
              (omega (arith, plain, kept.size)) in
          (
            (true, e', u),
            rw (read, ◌>>=◌, run, ◌>>=◌, pushed) (ap (λ d. ok (d, e', u)) p.0),
            (p.1.array, p.1.added ∙ ap (λ xs. xs ++ e ∷ []) kept.same),
          )
