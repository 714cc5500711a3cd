-- ===== src/Align/Bounds.antt =====
-- `align_up` and `align_down` at a power of two: the nearest multiples.
use Prim.Native.Nat.{bit_and}
use native.Mathlib.Nat.{
  lt-div-mul-add, div-mul-le_self, mul-mod_left, zero-mul, zero-add, div-lt_iff_lt-mul, mod-lt,
  div-add-mod', add-zero, add-suc, pow-suc, one-le-pow, pow-le-pow_right,
}
use c_base.Base.{ℕ, zero, suc, ◌+◌, ◌-◌, ◌*◌, ◌/◌, ◌%◌, ◌^◌, ◌≤◌, ◌<◌, ◌≡◌, sym, ap, ◌∙◌, arith}
use c_base.Base.Bits.{low_ones, high_ones}
use c_base.Base.Word.{add_size, sub_size, complement, word_mod}
use c_base.Align.{align_up, align_down}

-- Powers of two add their exponents.
two_pow_add : (k j : ℕ) → 2 ^ (k + j) ≡ 2 ^ j * 2 ^ k
two_pow_add k zero = rw (add-zero) (omega arith)
two_pow_add k (suc j) =
    rw add-suc
      (omega (arith, two_pow_add k j, pow-suc 2 (k + j), ap (λ (t : ℕ). t * 2 ^ k) (pow-suc 2 j)))

module _ {k : ℕ} (small : k < 64) where
  -- The mask `~(2 ^ k - 1)` is a run of ones above `k` zeros.
  word_pow : word_mod ≡ 2 ^ (64 - k) * 2 ^ k
  word_pow = ap (λ (n : ℕ). 2 ^ n) split ∙ two_pow_add k (64 - k)
    where
      split : 64 ≡ k + (64 - k)
      split = omega arith

  high_mask : complement (sub_size (2 ^ k) 1) ≡ (2 ^ (64 - k) - 1) * 2 ^ k
  high_mask =
      omega
        (arith, word_pow, one-le-pow k 2 (omega arith), fits, ap (λ (t : ℕ). t * 2 ^ k) pred_add)
    where
      pred_add : 2 ^ (64 - k) ≡ 2 ^ (64 - k) - 1 + 1
      pred_add = omega (arith, one-le-pow (64 - k) 2 (omega arith))

      fits : 2 ^ k ≤ 2 ^ 63
      fits = pow-le-pow_right (omega arith) {i = k} {j = 63} (omega arith)

  quotient_fits : (p : ℕ) → p < word_mod → p / 2 ^ k < 2 ^ (64 - k)
  quotient_fits p h = (div-lt_iff_lt-mul (one-le-pow k 2 (omega arith))).1 (rw (← word_pow) h)

  -- `align_down` goes to the multiple at or below the address.
  pub align_down_lem : (p : ℕ) → p < word_mod → align_down p (2 ^ k) ≡ p / 2 ^ k * 2 ^ k
  unfolding align_down
  align_down_lem p h =
      ap (bit_and p) high_mask
      ∙ ap (λ (t : ℕ). bit_and t ((2 ^ (64 - k) - 1) * 2 ^ k)) div_mod
      ∙ high_ones k (p / 2 ^ k) (p % 2 ^ k) (2 ^ (64 - k) - 1) rest_fits
      ∙ ap (λ (t : ℕ). t * 2 ^ k) kept
    where
      pos : 0 < 2 ^ k
      pos = one-le-pow k 2 (omega arith)

      rest_fits : p % 2 ^ k < 2 ^ k
      rest_fits = mod-lt p pos

      kept : bit_and (p / 2 ^ k) (2 ^ (64 - k) - 1) ≡ p / 2 ^ k
      kept = rw (zero-mul, zero-add) at (low_ones (64 - k) 0 (p / 2 ^ k) (quotient_fits p h))

      div_mod : p ≡ p / 2 ^ k * 2 ^ k + p % 2 ^ k
      div_mod = sym (div-add-mod' p (2 ^ k))

  -- `align_up` goes to the multiple at or above the address, unless the sum wraps.
  pub align_up_lem :
      (p : ℕ) → p + 2 ^ k ≤ word_mod → align_up p (2 ^ k) ≡ (p + 2 ^ k - 1) / 2 ^ k * 2 ^ k
  unfolding align_up align_down
  align_up_lem p h =
      ap (λ (t : ℕ). align_down t (2 ^ k)) no_wrap ∙ align_down_lem (p + 2 ^ k - 1) (omega arith)
    where
      no_wrap : sub_size (add_size p (2 ^ k)) 1 ≡ p + 2 ^ k - 1
      no_wrap = omega (arith, one-le-pow k 2 (omega arith))

-- `q` is the least multiple of `a` from `p` on.
pub record IsAlignUp (p a q : ℕ) : Type 0 where
  pub above : p ≤ q
  pub near : q < p + a
  pub multiple : q % a ≡ 0

-- `q` is the greatest multiple of `a` up to `p`.
pub record IsAlignDown (p a q : ℕ) : Type 0 where
  pub below : q ≤ p
  pub near : p < q + a
  pub multiple : q % a ≡ 0

-- What the assertions on an alignment leave: a power of two that fits a word.
abbrev pub IsAlignment : ℕ → Type 0
IsAlignment a = (k : ℕ) × (k < 64) × (a ≡ 2 ^ k)

-- At a power of two, if the padded address does not wrap, `align_up` returns the least multiple of
-- the alignment that is not below the address.
pub align_up-IsAlignUp :
    (p : ℕ) {a : ℕ} → IsAlignment a → p + a ≤ word_mod → IsAlignUp p a (align_up p a)
align_up-IsAlignUp p (k, small, e) h = rw e (at_power (rw (← e) h))
  where
    at_power : p + 2 ^ k ≤ word_mod → IsAlignUp p (2 ^ k) (align_up p (2 ^ k))
    at_power fits = rw (align_up_lem small p fits) (record {
      above = omega (arith, pos, lt-div-mul-add {a = p + 2 ^ k - 1} pos);
      near = omega (arith, pos, div-mul-le_self (p + 2 ^ k - 1) (2 ^ k));
      multiple = mul-mod_left ((p + 2 ^ k - 1) / 2 ^ k) (2 ^ k);
    })
      where
        pos : 0 < 2 ^ k
        pos = one-le-pow k 2 (omega arith)

-- At a power of two, `align_down` returns the greatest multiple of the alignment that is not above
-- the address.
pub align_down-IsAlignDown :
    (p : ℕ) {a : ℕ} → IsAlignment a → p < word_mod → IsAlignDown p a (align_down p a)
align_down-IsAlignDown p (k, small, e) h =
    rw (e, align_down_lem small p h)
      (record {
        below = div-mul-le_self p (2 ^ k);
        near = lt-div-mul-add (one-le-pow k 2 (omega arith));
        multiple = mul-mod_left (p / 2 ^ k) (2 ^ k);
      })
