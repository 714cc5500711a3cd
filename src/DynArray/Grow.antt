-- ===== src/DynArray/Grow.antt =====
-- `dynarray_ensure_capacity` ends, and keeps the contents of an array.
use c_base.Base.{ℕ, ◌*◌, ◌^◌, ◌≤◌, ◌<◌, ◌≡◌, ◌⊎◌, inl, inr, Bool, true, false, arith}
use c_base.Base.Run.{◌>>=◌, Returns}
use c_base.Base.Word.{word_mod}
use c_base.DynArray.{State}
use c_base.DynArray.Capacity.{IsGrown, grow_loop-IsGrown}
use c_base.DynArray.Size.{dynarray_ensure_capacity}
use c_base.DynArray.View.{IsArray, IsCarrying}
use c_base.DynArray.Reserve.{times_le, Reserved, dynarray_reserve-Reserved}

module _ {S W E : Type 0} (fresh : ℕ → ℕ → E) where
  -- twice a request, in bytes, fits
  abbrev pub IsRequest : State S W E → ℕ → Type 0
  IsRequest s wanted = 2 * wanted * s.array.elem_size < word_mod

  request_small :
      (s : State S W E) (wanted : ℕ) → IsArray s.array → IsRequest s wanted → wanted ≤ 2 ^ 63
  request_small s wanted a h = omega (
    arith,
    a.sized,
    times_le (2 * wanted) (2 * wanted) 1 s.array.elem_size (omega arith) (omega (arith, a.sized)),
  )

  grown_fits :
      (s : State S W E) (wanted new : ℕ)
      → IsArray s.array
      → IsRequest s wanted
      → IsGrown s.array.capacity wanted new
      → new * s.array.elem_size < word_mod
  grown_fits s wanted new a h g = go g.not_much
    where
      go : (new ≡ s.array.capacity) ⊎ (new < 2 * wanted) → new * s.array.elem_size < word_mod
      go (inl e) = rw e a.fits
      go (inr lt) = omega (
        arith,
        h,
        times_le new (2 * wanted) s.array.elem_size s.array.elem_size (omega arith) (omega arith),
      )

  Reserved-le :
      (wanted new : ℕ) (s : State S W E) (r : Bool × State S W E)
      → wanted ≤ new
      → Reserved new s r
      → Reserved wanted s r
  Reserved-le wanted new s (true, t) le (kept, room) = (kept, omega arith)
  Reserved-le wanted new s (false, t) le same = same

  -- On a well-formed array whose elements carry over, for a capacity of which the double, in bytes,
  -- does not wrap, `dynarray_ensure_capacity` does not fault: its loop ends. With success there is
  -- room for that many elements, the array is well formed and its contents are the same; without,
  -- the array is as it was.
  pub dynarray_ensure_capacity-Reserved :
      (wanted : ℕ) (s : State S W E)
      → IsArray s.array
      → IsCarrying s.array.elem_lifetime
      → IsRequest s wanted
      → Returns (dynarray_ensure_capacity fresh wanted s) (Reserved wanted s)
  unfolding dynarray_ensure_capacity
  dynarray_ensure_capacity-Reserved wanted s a c h =
      let (new, run, g) = grow_loop-IsGrown s.array.capacity wanted (request_small s wanted a h) in
      let (r, done, reserved) =
        dynarray_reserve-Reserved fresh new s a c (grown_fits s wanted new a h g) in
      (r, rw (run, ◌>>=◌) done, Reserved-le wanted new s r g.enough reserved)
