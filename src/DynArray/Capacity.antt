-- ===== src/DynArray/Capacity.antt =====
-- How far `dynarray_ensure_capacity` grows an array, and when its loop ends.
use native.Mathlib.Nat.{pow-suc, pow-le-pow_right, one-le-pow}
use c_base.Base.{ℕ, zero, suc, ◌*◌, ◌^◌, ◌≤◌, ◌<◌, ◌≡◌, refl, ap, ◌∙◌, ◌⊎◌, inl, inr, arith, dec_lt}
use c_base.Base.Run.{ok, fault, Fault, Returns}
use c_base.Align.Bounds.{IsAlignment}
use c_base.DynArray.Size.{next_capacity, grow_loop, grow_fuel}

-- What the loop returns: a capacity that is large enough, either the one it began with or less than
-- twice what was asked for.
pub record IsGrown (old wanted new : ℕ) : Type 0 where
  pub enough : wanted ≤ new
  pub not_less : old ≤ new
  pub not_much : (new ≡ old) ⊎ (new < 2 * wanted)

grow_done : (fuel n wanted : ℕ) → wanted ≤ n → grow_loop (suc fuel) n wanted ≡ ok n
unfolding grow_loop
grow_done fuel n wanted h = ground arith

grow_more :
    (fuel n wanted : ℕ)
    → n < wanted
    → grow_loop (suc fuel) n wanted ≡ grow_loop fuel (next_capacity n) wanted
unfolding grow_loop
grow_more fuel n wanted h = ground arith

grow_stops :
    (fuel n wanted : ℕ) → wanted ≤ n → Returns (grow_loop (suc fuel) n wanted) (IsGrown n wanted)
grow_stops fuel n wanted h = (
  n,
  grow_done fuel n wanted h,
  record { enough = h; not_less = omega arith; not_much = inl refl },
)

-- A doubling in between is forgotten.
IsGrown-next :
    (n m wanted new : ℕ) → n ≤ m → m < 2 * wanted → IsGrown m wanted new → IsGrown n wanted new
IsGrown-next n m wanted new le lt g = record {
  enough = g.enough;
  not_less = omega arith;
  not_much = inr (omega (arith, g.not_much));
}

-- With `f` doublings to go.
grow_loop_pos :
    (f n wanted : ℕ)
    → 0 < n
    → wanted ≤ 2 ^ 63
    → wanted ≤ n * 2 ^ f
    → Returns (grow_loop (suc f) n wanted) (IsGrown n wanted)
grow_loop_pos zero n wanted pos small near = grow_stops 0 n wanted (omega arith)
grow_loop_pos (suc f) n wanted pos small near = elim (dec_lt n wanted) [
  | no p ↦ grow_stops (suc f) n wanted (omega arith)
  | yes p ↦
      let doubled : next_capacity n ≡ 2 * n = ground arith in
      let (new, run, g) =
        grow_loop_pos f (2 * n) wanted (omega arith) small
          (omega (arith, ap (λ (t : ℕ). n * t) (pow-suc 2 f))) in
      (
        new,
        grow_more (suc f) n wanted p ∙ ap (λ (m : ℕ). grow_loop (suc f) m wanted) doubled ∙ run,
        IsGrown-next n (2 * n) wanted new (omega arith) (omega arith) g,
      )
]

-- For a capacity of up to 2 ^ 63 elements the loop ends, within the fuel that the model gives it, at a
-- capacity that is large enough, not below the old one, and either the old one or less than twice
-- what was asked for.
pub grow_loop-IsGrown :
    (n wanted : ℕ) → wanted ≤ 2 ^ 63 → Returns (grow_loop grow_fuel n wanted) (IsGrown n wanted)
grow_loop-IsGrown zero wanted small = elim (dec_lt 0 wanted) [
  | no p ↦ grow_stops 65 0 wanted (omega arith)
  | yes p ↦
      let (new, run, g) = grow_loop_pos 64 1 wanted (omega arith) small (omega arith) in
      (
        new,
        grow_more 65 0 wanted p ∙ run,
        IsGrown-next 0 1 wanted new (omega arith) (omega arith) g,
      )
]
grow_loop-IsGrown (suc n) wanted small =
    grow_loop_pos 65 (suc n) wanted (omega arith) small (grind arith)

-- What the loop goes through from 0, and from a power of two: the powers of two, then 0 again.
abbrev pub IsDoubling : ℕ → Type 0
IsDoubling n = (n ≡ 0) ⊎ IsAlignment n

IsDoubling-next : (n : ℕ) → IsDoubling n → IsDoubling (next_capacity n)
IsDoubling-next n (inl e) = inr (0, omega arith, ground arith)
IsDoubling-next n (inr (k, small, e)) = elim (dec_lt k 63) [
  | yes p ↦ inr (
    suc k,
    omega arith,
    ground (
      arith,
      e,
      pow-suc 2 k,
      one-le-pow k 2,
      pow-le-pow_right {n = 2} (omega arith) {i = suc k} {j = 63} (omega arith),
    ),
  )
  | no p ↦
      let top : n ≡ 2 ^ 63 = e ∙ ap (λ (t : ℕ). 2 ^ t) {x = k} {y = 63} (omega arith) in
      inl (ground (arith, top))
]

IsDoubling-le : (n : ℕ) → IsDoubling n → n ≤ 2 ^ 63
IsDoubling-le n (inl e) = omega arith
IsDoubling-le n (inr (k, small, e)) =
    rw e (pow-le-pow_right (omega arith) {i = k} {j = 63} (omega arith))

-- For more than 2 ^ 63 elements, from 0 or a power of two, the doubling wraps to 0 and begins again:
-- the loop runs out of any fuel.
pub grow_loop_endless :
    (fuel n wanted : ℕ)
    → IsDoubling n
    → 2 ^ 63 < wanted
    → grow_loop fuel n wanted ≡ fault Fault.endless
unfolding grow_loop
grow_loop_endless zero n wanted d big = refl
grow_loop_endless (suc fuel) n wanted d big = ground (
  arith,
  IsDoubling-le n d,
  grow_loop_endless fuel (next_capacity n) wanted (IsDoubling-next n d) big,
)
