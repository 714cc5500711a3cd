-- ===== src/DynArray/Up.antt =====
-- The loops of `dynarray_insert` that move or copy the cells one place up.
use c_base.Base.{
  ℕ, zero, suc, ◌+◌, ◌-◌, ◌<◌, ◌≡◌, ◌≢◌, refl, ap, sym, ◌∙◌, inl, inr, List, some, arith, length,
  get_elem?, set, length-set, get_elem?-set_self, get_elem?-set_ne, get_elem?_in_range, dec_lt,
}
use c_base.Base.Cells.{load-ok, store-ok}
use c_base.Base.Run.{Run, ◌>>=◌, Returns}
use c_base.DynArray.Store.{move_up_loop, copy_up_loop}
use c_base.DynArray.Transfer.{Moves, Copies, IsCarried}

module _ {E : Type 0} where
  -- `result` has behind `to` the `n` cells that `src` has from there on, and the same cells elsewhere,
  -- but for what is in `to`.
  pub record IsRaised (to n : ℕ) (src result : List E) : Type 0 where
    pub inside : (k : ℕ) → k < n → get_elem? result (to + 1 + k) ≡ get_elem? src (to + k)
    pub before : (j : ℕ) → j < to → get_elem? result j ≡ get_elem? src j
    pub above : (j : ℕ) → to + n < j → get_elem? result j ≡ get_elem? src j
    pub same_length : length result ≡ length src

  pub IsCarried-IsRaised :
      (to n : ℕ) (src result : List E)
      → IsCarried (to + 1) to n src src result
      → IsRaised to n src result
  IsCarried-IsRaised to n src result c = record {
    inside = c.inside;
    before = λ j h. c.outside j (inl (omega arith));
    above = λ j h. c.outside j (inr (omega arith));
    same_length = c.same_length;
  }

  -- What is in the gap does not matter.
  pub IsRaised-around :
      (to n : ℕ) (src raised result : List E)
      → IsRaised to n src raised
      → ((j : ℕ) → j ≢ to → get_elem? result j ≡ get_elem? raised j)
      → length result ≡ length raised
      → IsRaised to n src result
  IsRaised-around to n src raised result c around long = record {
    inside = λ k h. around (to + 1 + k) (omega arith) ∙ c.inside k h;
    before = λ j h. around j (omega arith) ∙ c.before j h;
    above = λ j h. around j (omega arith) ∙ c.above j h;
    same_length = long ∙ c.same_length;
  }

  IsRaised-zero : (to : ℕ) (src : List E) → IsRaised to 0 src src
  IsRaised-zero to src = record {
    inside = λ k h. absurd (omega arith);
    before = λ j h. refl;
    above = λ j h. refl;
    same_length = refl;
  }

  -- One cell put up, the rest by what comes after; `mid` is what the cells are in between.
  IsRaised-suc :
      (to n : ℕ) (src mid result : List E)
      → get_elem? mid (to + 1 + n) ≡ get_elem? src (to + n)
      → ((j : ℕ) → j < to + n → get_elem? mid j ≡ get_elem? src j)
      → ((j : ℕ) → to + 1 + n < j → get_elem? mid j ≡ get_elem? src j)
      → length mid ≡ length src
      → IsRaised to n mid result
      → IsRaised to (suc n) src result
  IsRaised-suc to n src mid result here low high long rest = record {
    inside = λ k h. elim (dec_lt k n) [
      | yes lt ↦ rest.inside k lt ∙ low (to + k) (omega arith)
      | no ge ↦
          let last : k ≡ n = omega arith in
          rest.above (to + 1 + k) (omega arith)
          ∙ ap (λ l. get_elem? mid (to + 1 + l)) last
          ∙ here
          ∙ ap (λ l. get_elem? src (to + l)) (sym last)
    ];
    before = λ j h. rest.before j h ∙ low j (omega arith);
    above = λ j h. rest.above j (omega arith) ∙ high j (omega arith);
    same_length = rest.same_length ∙ long;
  }

module _ {W E : Type 0} where
  pub copy_up_loop-IsRaised :
      (copy : W → E → E → Run (E × W))
      → Copies copy
      → (n to : ℕ) (cells : List E) (w : W) (i : ℕ) → i ≡ to + n
      → to + n < length cells
      → Returns (copy_up_loop copy n i cells w) (λ r. IsRaised to n cells r.0)
  unfolding copy_up_loop
  copy_up_loop-IsRaised copy law zero to cells w i is h = ((cells, w), refl, IsRaised-zero to cells)
  copy_up_loop-IsRaised copy law (suc n) to cells w i is h =
      let (d, at) = get_elem?_in_range cells i (omega arith) in
      let (e, read) = get_elem?_in_range cells (i - 1) (omega arith) in
      let ((d', w'), made, same) = law w d e in
      let (result, run, p) =
        copy_up_loop-IsRaised copy law n to (set cells i d') w' (i - 1) (omega arith)
          (omega (arith, length-set cells i d')) in
      (
        result,
        rw
            (
              load-ok cells i d at,
              ◌>>=◌,
              load-ok cells (i - 1) e read,
              ◌>>=◌,
              made,
              ◌>>=◌,
              store-ok cells i d' (omega arith),
              ◌>>=◌,
            )
            run,
        IsRaised-suc to n cells (set cells i d') result.0
            (ap (get_elem? (set cells i d')) (omega arith)
              ∙ get_elem?-set_self cells i d' (omega arith)
              ∙ ap some same
              ∙ sym read
              ∙ ap (get_elem? cells) (omega arith))
            (λ j lt. get_elem?-set_ne cells i j d' (omega arith))
            (λ j lt. get_elem?-set_ne cells i j d' (omega arith)) (length-set cells i d') p,
      )

  pub move_up_loop-IsRaised :
      (move : W → E → E → Run (E × E × W))
      → Moves move
      → (n to : ℕ) (cells : List E) (w : W) (i : ℕ) → i ≡ to + n
      → to + n < length cells
      → Returns (move_up_loop move n i cells w) (λ r. IsRaised to n cells r.0)
  unfolding move_up_loop
  move_up_loop-IsRaised move law zero to cells w i is h = ((cells, w), refl, IsRaised-zero to cells)
  move_up_loop-IsRaised move law (suc n) to cells w i is h =
      let (d, at) = get_elem?_in_range cells i (omega arith) in
      let (e, read) = get_elem?_in_range cells (i - 1) (omega arith) in
      let ((d', e', w'), made, same) = law w d e in
      let high = set cells i d' in
      let mid = set high (i - 1) e' in
      let (result, run, p) =
        move_up_loop-IsRaised move law n to mid w' (i - 1) (omega arith)
          (omega (arith, length-set cells i d', length-set high (i - 1) e')) in
      (
        result,
        rw
            (
              load-ok cells i d at,
              ◌>>=◌,
              load-ok cells (i - 1) e read,
              ◌>>=◌,
              made,
              ◌>>=◌,
              store-ok cells i d' (omega arith),
              ◌>>=◌,
              store-ok high (i - 1) e' (omega (arith, length-set cells i d')),
              ◌>>=◌,
            )
            run,
        IsRaised-suc to n cells mid result.0
            (get_elem?-set_ne high (i - 1) (to + 1 + n) e' (omega arith)
              ∙ ap (get_elem? high) (omega arith)
              ∙ get_elem?-set_self cells i d' (omega arith)
              ∙ ap some same
              ∙ sym read
              ∙ ap (get_elem? cells) (omega arith))
            (λ j lt.
              get_elem?-set_ne high (i - 1) j e' (omega arith)
              ∙ get_elem?-set_ne cells i j d' (omega arith))
            (λ j lt.
              get_elem?-set_ne high (i - 1) j e' (omega arith)
              ∙ get_elem?-set_ne cells i j d' (omega arith))
            (length-set high (i - 1) e' ∙ length-set cells i d') p,
      )
