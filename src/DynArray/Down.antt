-- ===== src/DynArray/Down.antt =====
-- The loops of `dynarray_remove` that move or copy the cells one place down.
use c_base.Base.{
  ℕ, zero, suc, ◌+◌, ◌-◌, ◌≤◌, ◌<◌, ◌≡◌, ◌≢◌, refl, ap, sym, ◌∙◌, inl, List, some, arith, length,
  get_elem?, set, length-set, get_elem?-set_self, get_elem?-set_ne, get_elem?_in_range,
}
use c_base.Base.Cells.{load-ok, store-ok}
use c_base.Base.Run.{Run, ◌>>=◌, Returns}
use c_base.DynArray.Store.{move_down_loop, copy_down_loop}
use c_base.DynArray.Transfer.{Moves, Copies, IsCarried}

module _ {E : Type 0} where
  -- `result` has from `to` on the `n` cells that `src` has behind that one, and the same cells before.
  pub record IsLowered (to n : ℕ) (src result : List E) : Type 0 where
    pub inside : (k : ℕ) → k < n → get_elem? result (to + k) ≡ get_elem? src (to + 1 + k)
    pub before : (j : ℕ) → j < to → get_elem? result j ≡ get_elem? src j
    pub same_length : length result ≡ length src

  pub IsCarried-IsLowered :
      (to n : ℕ) (src result : List E)
      → IsCarried to (to + 1) n src src result
      → IsLowered to n src result
  IsCarried-IsLowered to n src result c = record {
    inside = c.inside;
    before = λ j h. c.outside j (inl h);
    same_length = c.same_length;
  }

  -- Other cells than the one that is overwritten may be read, and others than the lowered ones written.
  pub IsLowered-around :
      (to n : ℕ) (src mid low result : List E)
      → ((j : ℕ) → j ≢ to → get_elem? mid j ≡ get_elem? src j)
      → length mid ≡ length src
      → IsLowered to n mid low
      → ((j : ℕ) → j ≢ to + n → get_elem? result j ≡ get_elem? low j)
      → length result ≡ length low
      → IsLowered to n src result
  IsLowered-around to n src mid low result around long c around' long' = record {
    inside =
        λ k h. around' (to + k) (omega arith) ∙ c.inside k h ∙ around (to + 1 + k) (omega arith);
    before = λ j h. around' j (omega arith) ∙ c.before j h ∙ around j (omega arith);
    same_length = long' ∙ c.same_length ∙ long;
  }

  IsLowered-zero : (to : ℕ) (src : List E) → IsLowered to 0 src src
  IsLowered-zero to src = record {
    inside = λ k h. absurd (omega arith);
    before = λ j h. refl;
    same_length = refl;
  }

  -- One cell put down, the rest by what comes after; `mid` is what the cells are in between.
  IsLowered-suc :
      (to n : ℕ) (src mid result : List E)
      → get_elem? mid to ≡ get_elem? src (to + 1)
      → ((j : ℕ) → j < to → get_elem? mid j ≡ get_elem? src j)
      → ((j : ℕ) → to + 1 < j → get_elem? mid j ≡ get_elem? src j)
      → length mid ≡ length src
      → IsLowered (to + 1) n mid result
      → IsLowered to (suc n) src result
  IsLowered-suc to n src mid result here low high long rest = record {
    inside = within;
    before = λ j h. rest.before j (omega arith) ∙ low j h;
    same_length = rest.same_length ∙ long;
  }
    where
      within : (k : ℕ) → k < suc n → get_elem? result (to + k) ≡ get_elem? src (to + 1 + k)
      within zero h =
          ap (get_elem? result) (omega arith)
          ∙ rest.before to (omega arith)
          ∙ here
          ∙ ap (get_elem? src) (omega arith)
      within (suc k) h =
          ap (get_elem? result) (omega arith)
          ∙ rest.inside k (omega arith)
          ∙ high (to + 1 + 1 + k) (omega arith)
          ∙ ap (get_elem? src) (omega arith)

module _ {W E : Type 0} where
  pub copy_down_loop-IsLowered :
      (copy : W → E → E → Run (E × W))
      → Copies copy
      → (n to : ℕ) (cells : List E) (w : W) → to + 1 + n ≤ length cells
      → Returns (copy_down_loop copy n (to + 1) cells w) (λ r. IsLowered to n cells r.0)
  unfolding copy_down_loop
  copy_down_loop-IsLowered copy law zero to cells w h = ((cells, w), refl, IsLowered-zero to cells)
  copy_down_loop-IsLowered copy law (suc n) to cells w h =
      let (d, at) = get_elem?_in_range cells (to + 1 - 1) (omega arith) in
      let (e, read) = get_elem?_in_range cells (to + 1) (omega arith) in
      let ((d', w'), made, same) = law w d e in
      let (result, run, p) =
        copy_down_loop-IsLowered copy law n (to + 1) (set cells (to + 1 - 1) d') w'
          (omega (arith, length-set cells (to + 1 - 1) d')) in
      (
        result,
        rw
            (
              load-ok cells (to + 1 - 1) d at,
              ◌>>=◌,
              load-ok cells (to + 1) e read,
              ◌>>=◌,
              made,
              ◌>>=◌,
              store-ok cells (to + 1 - 1) d' (omega arith),
              ◌>>=◌,
            )
            run,
        IsLowered-suc to n cells (set cells (to + 1 - 1) d') result.0
            (ap (get_elem? (set cells (to + 1 - 1) d')) (omega arith)
              ∙ get_elem?-set_self cells (to + 1 - 1) d' (omega arith)
              ∙ ap some same
              ∙ sym read)
            (λ j lt. get_elem?-set_ne cells (to + 1 - 1) j d' (omega arith))
            (λ j lt. get_elem?-set_ne cells (to + 1 - 1) j d' (omega arith))
            (length-set cells (to + 1 - 1) d') p,
      )

  pub move_down_loop-IsLowered :
      (move : W → E → E → Run (E × E × W))
      → Moves move
      → (n to : ℕ) (cells : List E) (w : W) → to + 1 + n ≤ length cells
      → Returns (move_down_loop move n (to + 1) cells w) (λ r. IsLowered to n cells r.0)
  unfolding move_down_loop
  move_down_loop-IsLowered move law zero to cells w h = ((cells, w), refl, IsLowered-zero to cells)
  move_down_loop-IsLowered move law (suc n) to cells w h =
      let (d, at) = get_elem?_in_range cells (to + 1 - 1) (omega arith) in
      let (e, read) = get_elem?_in_range cells (to + 1) (omega arith) in
      let ((d', e', w'), made, same) = law w d e in
      let low = set cells (to + 1 - 1) d' in
      let mid = set low (to + 1) e' in
      let (result, run, p) =
        move_down_loop-IsLowered move law n (to + 1) mid w'
          (omega (arith, length-set cells (to + 1 - 1) d', length-set low (to + 1) e')) in
      (
        result,
        rw
            (
              load-ok cells (to + 1 - 1) d at,
              ◌>>=◌,
              load-ok cells (to + 1) e read,
              ◌>>=◌,
              made,
              ◌>>=◌,
              store-ok cells (to + 1 - 1) d' (omega arith),
              ◌>>=◌,
              store-ok low (to + 1) e' (omega (arith, length-set cells (to + 1 - 1) d')),
              ◌>>=◌,
            )
            run,
        IsLowered-suc to n cells mid result.0
            (get_elem?-set_ne low (to + 1) to e' (omega arith)
              ∙ ap (get_elem? low) (omega arith)
              ∙ get_elem?-set_self cells (to + 1 - 1) d' (omega arith)
              ∙ ap some same
              ∙ sym read)
            (λ j lt.
              get_elem?-set_ne low (to + 1) j e' (omega arith)
              ∙ get_elem?-set_ne cells (to + 1 - 1) j d' (omega arith))
            (λ j lt.
              get_elem?-set_ne low (to + 1) j e' (omega arith)
              ∙ get_elem?-set_ne cells (to + 1 - 1) j d' (omega arith))
            (length-set low (to + 1) e' ∙ length-set cells (to + 1 - 1) d') p,
      )
