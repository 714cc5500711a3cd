-- ===== src/Pool/Lists.antt =====
-- Lists of blocks: what stays distinct, apart and in range when one is taken out.
use c_base.Base.{
  ℕ, zero, suc, ◌<◌, ◌≡◌, ◌≢◌, refl, sym, ap, some, List, [], ◌∷◌, arith, length, get_elem?,
}
use mathlib.Core.Path.{subst}
use c_base.Pool.Build.{Absent, Distinct}

-- No block is in both lists.
abbrev pub Apart : List ℕ → List ℕ → Type 0
Apart [] live = Unit
Apart (i ∷ is) live = Absent i live × Apart is live

abbrev pub AllBelow : ℕ → List ℕ → Type 0
AllBelow n [] = Unit
AllBelow n (i ∷ is) = (i < n) × AllBelow n is

-- the list without its entry at position `k`
abbrev pub erase_at : List ℕ → ℕ → List ℕ
erase_at [] k = []
erase_at (x ∷ xs) zero = xs
erase_at (x ∷ xs) (suc k) = x ∷ erase_at xs k

pub Absent-erase : (j : ℕ) (xs : List ℕ) (k : ℕ) → Absent j xs → Absent j (erase_at xs k)
Absent-erase j [] k h = h
Absent-erase j (x ∷ xs) zero (ne, h) = h
Absent-erase j (x ∷ xs) (suc k) (ne, h) = (ne, Absent-erase j xs k h)

pub Distinct-erase : (xs : List ℕ) (k : ℕ) → Distinct xs → Distinct (erase_at xs k)
Distinct-erase [] k h = h
Distinct-erase (x ∷ xs) zero (out, h) = h
Distinct-erase (x ∷ xs) (suc k) (out, h) = (Absent-erase x xs k out, Distinct-erase xs k h)

pub Absent-get : (j : ℕ) (xs : List ℕ) (k i : ℕ) → Absent j xs → get_elem? xs k ≡ some i → j ≢ i
Absent-get j [] k i h e = cc
Absent-get j (x ∷ xs) zero i (ne, h) e = ground arith
Absent-get j (x ∷ xs) (suc k) i (ne, h) e = Absent-get j xs k i h e

some_eq : (x i : ℕ) → some x ≡ some i → x ≡ i
some_eq x i e = cc

pub Distinct-get :
    (xs : List ℕ) (k i : ℕ) → Distinct xs → get_elem? xs k ≡ some i → Absent i (erase_at xs k)
Distinct-get [] k i h e = tt
Distinct-get (x ∷ xs) zero i (out, h) e = subst (λ j. Absent j xs) (some_eq x i e) out
Distinct-get (x ∷ xs) (suc k) i (out, h) e =
    (λ eq. Absent-get x xs k i out e (sym eq), Distinct-get xs k i h e)

pub Apart-erase : (is xs : List ℕ) (k : ℕ) → Apart is xs → Apart is (erase_at xs k)
Apart-erase [] xs k h = tt
Apart-erase (i ∷ is) xs k (out, h) = (Absent-erase i xs k out, Apart-erase is xs k h)

pub Apart-get : (is xs : List ℕ) (k i : ℕ) → Apart is xs → get_elem? xs k ≡ some i → Absent i is
Apart-get [] xs k i h e = tt
Apart-get (j ∷ js) xs k i (out, h) e =
    (λ eq. Absent-get j xs k i out e (sym eq), Apart-get js xs k i h e)

pub Apart-cons : (i : ℕ) (is xs : List ℕ) → Absent i is → Apart is xs → Apart is (i ∷ xs)
Apart-cons i [] xs out h = tt
Apart-cons i (j ∷ js) xs (ne, out) (h, hs) = ((λ e. ne (sym e), h), Apart-cons i js xs out hs)

pub AllBelow-erase : (n : ℕ) (xs : List ℕ) (k : ℕ) → AllBelow n xs → AllBelow n (erase_at xs k)
AllBelow-erase n [] k h = h
AllBelow-erase n (x ∷ xs) zero (lt, h) = h
AllBelow-erase n (x ∷ xs) (suc k) (lt, h) = (lt, AllBelow-erase n xs k h)

pub AllBelow-get : (n : ℕ) (xs : List ℕ) (k i : ℕ) → AllBelow n xs → get_elem? xs k ≡ some i → i < n
AllBelow-get n [] k i h e = cc
AllBelow-get n (x ∷ xs) zero i (lt, h) e = ground arith
AllBelow-get n (x ∷ xs) (suc k) i (lt, h) e = AllBelow-get n xs k i h e

pub length_erase :
    (xs : List ℕ) (k i : ℕ) → get_elem? xs k ≡ some i → suc (length (erase_at xs k)) ≡ length xs
length_erase [] k i e = cc
length_erase (x ∷ xs) zero i e = refl
length_erase (x ∷ xs) (suc k) i e = ap suc (length_erase xs k i e)
