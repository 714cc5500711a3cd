-- ===== src/DynArray/Transfer.antt =====
-- What the loops that transfer elements do to the cells.
use c_base.Base.{
  ℕ, zero, suc, ◌+◌, ◌≤◌, ◌<◌, ◌≡◌, refl, ap, sym, ◌∙◌, ◌⊎◌, inl, List, Option, none, some, arith,
  length, get_elem?, set, length-set, get_elem?-set_self, get_elem?-set_ne, get_elem?_in_range,
}
use c_base.Base.Cells.{load-ok, store-ok}
use c_base.Base.Run.{Run, ◌>>=◌, Returns}
use c_base.DynArray.Store.{copy_cells, move_loop, copy_loop, relocate}
use c_base.Policy.{ElementPolicy}

module _ {E : Type 0} where
  -- `result` is `dst` with `n` cells from `to` on replaced by those of `src` from `from` on.
  pub record IsCarried (to from n : ℕ) (dst src result : List E) : Type 0 where
    pub inside : (k : ℕ) → k < n → get_elem? result (to + k) ≡ get_elem? src (from + k)
    pub outside : (j : ℕ) → (j < to) ⊎ (to + n ≤ j) → get_elem? result j ≡ get_elem? dst j
    pub same_length : length result ≡ length dst

  IsCarried-zero : (to from : ℕ) (dst src : List E) → IsCarried to from 0 dst src dst
  IsCarried-zero to from dst src = record {
    inside = λ k h. absurd (omega arith);
    outside = λ j h. refl;
    same_length = refl;
  }

  -- One cell carried by hand, the rest by what comes after; `src'` may differ from `src` before the
  -- cells that are still to be read.
  IsCarried-suc :
      (to from n : ℕ) (dst src src' result : List E) (e : E)
      → get_elem? src from ≡ some e
      → to < length dst
      → ((k : ℕ) → get_elem? src' (from + 1 + k) ≡ get_elem? src (from + 1 + k))
      → IsCarried (to + 1) (from + 1) n (set dst to e) src' result
      → IsCarried to from (suc n) dst src result
  IsCarried-suc to from n dst src src' result e read fits same rest = record {
    inside = within;
    outside = λ j h. rest.outside j (ground arith) ∙ get_elem?-set_ne dst to j e (ground arith);
    same_length = rest.same_length ∙ length-set dst to e;
  }
    where
      within : (k : ℕ) → k < suc n → get_elem? result (to + k) ≡ get_elem? src (from + k)
      within zero h =
          ap (get_elem? result) (omega arith)
          ∙ rest.outside to (inl (omega arith))
          ∙ get_elem?-set_self dst to e fits
          ∙ sym read
          ∙ ap (get_elem? src) (omega arith)
      within (suc k) h =
          ap (get_elem? result) (omega arith)
          ∙ rest.inside k (omega arith)
          ∙ same k
          ∙ ap (get_elem? src) (omega arith)

  pub copy_cells-IsCarried :
      (n to from : ℕ) (dst src : List E)
      → to + n ≤ length dst
      → from + n ≤ length src
      → Returns (copy_cells n to from dst src) (IsCarried to from n dst src)
  unfolding copy_cells
  copy_cells-IsCarried zero to from dst src h k = (dst, refl, IsCarried-zero to from dst src)
  copy_cells-IsCarried (suc n) to from dst src h k =
      let (e, read) = get_elem?_in_range src from (omega arith) in
      let (result, run, c) =
        copy_cells-IsCarried n (to + 1) (from + 1) (set dst to e) src
          (omega (arith, length-set dst to e)) (omega arith) in
      (
        result,
        rw (load-ok src from e read, ◌>>=◌, store-ok dst to e (omega arith), ◌>>=◌) run,
        IsCarried-suc to from n dst src src result e read (omega arith) (λ k. refl) c,
      )

module _ {W E : Type 0} where
  -- `move` leaves in `dest` what was in `src`.
  abbrev pub Moves : (W → E → E → Run (E × E × W)) → Type 0
  Moves move = (w : W) (d e : E) → Returns (move w d e) (λ r. r.0 ≡ e)

  -- `copy` leaves in `dest` what is in `src`.
  abbrev pub Copies : (W → E → E → Run (E × W)) → Type 0
  Copies copy = (w : W) (d e : E) → Returns (copy w d e) (λ r. r.0 ≡ e)

  pub copy_loop-IsCarried :
      (copy : W → E → E → Run (E × W))
      → Copies copy
      → (n i : ℕ) (dst src : List E) (w : W) → i + n ≤ length dst
      → i + n ≤ length src
      → Returns (copy_loop copy n i dst src w) (λ r. IsCarried i i n dst src r.0)
  unfolding copy_loop
  copy_loop-IsCarried copy law zero i dst src w h k = ((dst, w), refl, IsCarried-zero i i dst src)
  copy_loop-IsCarried copy law (suc n) i dst src w h k =
      let (d, at) = get_elem?_in_range dst i (omega arith) in
      let (e, read) = get_elem?_in_range src i (omega arith) in
      let ((d', w'), made, same) = law w d e in
      let (result, run, c) =
        copy_loop-IsCarried copy law n (i + 1) (set dst i d') src w'
          (omega (arith, length-set dst i d')) (omega arith) in
      (
        result,
        rw
            (
              load-ok dst i d at,
              ◌>>=◌,
              load-ok src i e read,
              ◌>>=◌,
              made,
              ◌>>=◌,
              store-ok dst i d' (omega arith),
              ◌>>=◌,
            )
            run,
        IsCarried-suc i i n dst src src (result.0) d' (read ∙ ap some (sym same)) (omega arith)
            (λ k. refl) c,
      )

  move_loop-IsCarried :
      (move : W → E → E → Run (E × E × W))
      → Moves move
      → (n i : ℕ) (dst src : List E) (w : W) → i + n ≤ length dst
      → i + n ≤ length src
      → Returns (move_loop move n i dst src w) (λ r. IsCarried i i n dst src r.0)
  unfolding move_loop
  move_loop-IsCarried move law zero i dst src w h k =
      ((dst, src, w), refl, IsCarried-zero i i dst src)
  move_loop-IsCarried move law (suc n) i dst src w h k =
      let (d, at) = get_elem?_in_range dst i (omega arith) in
      let (e, read) = get_elem?_in_range src i (omega arith) in
      let ((d', e', w'), made, same) = law w d e in
      let (result, run, c) =
        move_loop-IsCarried move law n (i + 1) (set dst i d') (set src i e') w'
          (omega (arith, length-set dst i d')) (omega (arith, length-set src i e')) in
      (
        result,
        rw
            (
              load-ok dst i d at,
              ◌>>=◌,
              load-ok src i e read,
              ◌>>=◌,
              made,
              ◌>>=◌,
              store-ok dst i d' (omega arith),
              ◌>>=◌,
              store-ok src i e' (omega arith),
              ◌>>=◌,
            )
            run,
        IsCarried-suc i i n dst src (set src i e') (result.0) d' (read ∙ ap some (sym same))
            (omega arith) (λ k. get_elem?-set_ne src i (i + 1 + k) e' (omega arith)) c,
      )

  -- `move` carries the contents over, or there is none and `copy` does.
  abbrev pub Transfers :
      Option (W → E → E → Run (E × E × W)) → Option (W → E → E → Run (E × W)) → Type 0
  Transfers (some move) copy = Moves move
  Transfers none (some copy) = Copies copy
  Transfers none none = ⊥

  -- Elements are bytes, or have a `move` or else a `copy` that carries their contents over.
  abbrev pub Carries : Option (ElementPolicy W E) → Type 0
  Carries none = Unit
  Carries (some policy) = Transfers policy.move policy.copy

  relocate_by-IsCarried :
      (policy : ElementPolicy W E) (move : Option (W → E → E → Run (E × E × W)))
      (copy : Option (W → E → E → Run (E × W))) (n : ℕ) (dst src : List E) (w : W)
      → policy.move ≡ move
      → policy.copy ≡ copy
      → Transfers move copy
      → n ≤ length dst
      → n ≤ length src
      → Returns (relocate (some policy) n dst src w) (λ r. IsCarried 0 0 n dst src r.0)
  unfolding relocate
  relocate_by-IsCarried policy (some move) copy n dst src w em ec law h k =
      let ((cells, rest, w'), run, p) =
        move_loop-IsCarried move law n 0 dst src w (omega arith) (omega arith) in
      ((cells, w'), rw (em, run, ◌>>=◌), p)
  relocate_by-IsCarried policy none (some copy) n dst src w em ec law h k =
      let ((cells, w'), run, p) =
        copy_loop-IsCarried copy law n 0 dst src w (omega arith) (omega arith) in
      ((cells, w'), rw (em, ec) run, p)
  relocate_by-IsCarried policy none none n dst src w em ec law h k = elim law [ ]

  -- Elements that carry over are all found in the new buffer, in whichever way they are transferred.
  pub relocate-IsCarried :
      (policy : Option (ElementPolicy W E)) (n : ℕ) (dst src : List E) (w : W)
      → Carries policy
      → n ≤ length dst
      → n ≤ length src
      → Returns (relocate policy n dst src w) (λ r. IsCarried 0 0 n dst src r.0)
  unfolding relocate
  relocate-IsCarried none n dst src w c h k =
      let (cells, run, p) = copy_cells-IsCarried n 0 0 dst src (omega arith) (omega arith) in
      ((cells, w), rw (run, ◌>>=◌), p)
  relocate-IsCarried (some policy) n dst src w c h k =
      relocate_by-IsCarried policy policy.move policy.copy n dst src w refl refl c h k
