-- ===== src/Align/Power.antt =====
-- What the assertions on an alignment accept: exactly the powers of two.
use Prim.Native.Nat.{bit_and}
use native.Mathlib.Nat.{pow-suc, one-le-pow, pow-le-pow_right}
use c_base.Base.{
  ℕ, zero, suc, ◌-◌, ◌/◌, ◌%◌, ◌^◌, ◌≤◌, ◌<◌, ◌≡◌, ◌↔◌, ◌≢◌, refl, ap, ap₂, ◌∙◌, arith, ℕ_discrete,
  dec_lt,
}
use c_base.Base.Bits.{bit_and_halves, bit_and_self}
use c_base.Base.Run.{ok}
use c_base.Base.Word.{sub_size, word_mod}
use c_base.Align.{check_alignment}
use c_base.Align.Bounds.{IsAlignment}

-- `a` is a power of two.
abbrev pub IsPower : ℕ → Type 0
IsPower a = (k : ℕ) × (a ≡ 2 ^ k)

-- If the low bits below the highest one are clear in `a + 1`, it is a power of two: halve it.
IsPower-step : (n a : ℕ) → a ≤ n → bit_and (suc a) a ≡ 0 → IsPower (suc a)
IsPower-step n zero h e = (0, refl)
IsPower-step zero (suc a) h e = absurd (omega arith)
IsPower-step (suc n) (suc a) h e = elim (ℕ_discrete (a % 2) 0) [
  | no odd ↦ absurd (
      omega (
        arith,
        e,
        bit_and_halves (suc (suc a)) (suc a),
        bit_and_self (suc a / 2),
        ap (λ (t : ℕ). bit_and t (suc a / 2)) (same odd),
      ))
  | yes even ↦
      let (k, p) = IsPower-step n (a / 2) (omega arith) (half even) in
      (suc k, omega (arith, p, pow-suc 2 k))
]
  where
    same : a % 2 ≢ 0 → suc (suc a) / 2 ≡ suc a / 2
    same odd = omega arith

    half : a % 2 ≡ 0 → bit_and (suc (a / 2)) (a / 2) ≡ 0
    half even =
        omega
          (arith, bit_and_halves (suc (suc a)) (suc a), ap₂ bit_and (halved even).0 (halved even).1)
      where
        halved : a % 2 ≡ 0 → (suc (suc a) / 2 ≡ suc (a / 2)) × (suc a / 2 ≡ a / 2)
        halved even' = omega arith

pub pow-bit_and-pred : (k : ℕ) → bit_and (2 ^ k) (2 ^ k - 1) ≡ 0
pow-bit_and-pred zero = refl
pow-bit_and-pred (suc k) = ground (
  arith,
  bit_and_halves (2 ^ suc k) (2 ^ suc k - 1),
  pow-suc 2 k,
  one-le-pow k 2,
  pow-bit_and-pred k,
)

pow-lt_word : (k : ℕ) → 2 ^ k < word_mod → k < 64
pow-lt_word k h = elim (dec_lt k 64) [
  | yes p ↦ p
  | no p ↦
      absurd (omega (arith, pow-le-pow_right {n = 2} (omega arith) {i = 64} {j = k} (omega arith)))
]

check_alignment_accepts :
    (a : ℕ) → a < word_mod → check_alignment a ≡ ok tt → (0 < a) × (bit_and a (sub_size a 1) ≡ 0)
unfolding check_alignment
check_alignment_accepts a h e = ground arith

sub_size-one : (a : ℕ) → 0 < a → a < word_mod → sub_size a 1 ≡ a - 1
sub_size-one a p h = omega arith

IsPower-of_accepted : (a : ℕ) → a < word_mod → check_alignment a ≡ ok tt → IsPower a
IsPower-of_accepted zero h e = absurd (omega (arith, (check_alignment_accepts zero h e).0))
IsPower-of_accepted (suc a) h e =
    IsPower-step a a (omega arith)
      (ap (bit_and (suc a)) below ∙ (check_alignment_accepts (suc a) h e).1)
  where
    below : a ≡ sub_size (suc a) 1
    below = omega arith

accepts_power : (a : ℕ) → 0 < a → bit_and a (sub_size a 1) ≡ 0 → check_alignment a ≡ ok tt
unfolding check_alignment
accepts_power a p e = ground arith

-- The two assertions on an alignment pass exactly at the powers of two that fit a word.
pub check_alignment_iff : (a : ℕ) → a < word_mod → (check_alignment a ≡ ok tt) ↔ IsAlignment a
check_alignment_iff a h = (
  λ e. let (k, p) = IsPower-of_accepted a h e in (k, pow-lt_word k (rw (← p) h), p),
  λ (k, small, p). accepts_power a (rw p (one-le-pow k 2 (omega arith))) (clear k p),
)
  where
    clear : (k : ℕ) → a ≡ 2 ^ k → bit_and a (sub_size a 1) ≡ 0
    clear k p =
        ap (bit_and a) (sub_size-one a (rw p (one-le-pow k 2 (omega arith))) h)
        ∙ (rw p (pow-bit_and-pred k))
