-- ===== src/Base/Lists.antt =====
-- C arrays as lists with native indices. A read or write out of range is an error of its own in
-- the modules that use these; here it yields `none` or changes nothing.
use Prim.Native.Nat.{ℕ, zero, suc, ◌+◌, ◌≤◌, ◌<◌}
use mathlib.Core.Path.{◌≡◌, refl, ap, ap₂, ◌∙◌}
use mathlib.Core.Logic.{◌≢◌}
use mathlib.Core.List.{List, [], ◌∷◌, ◌++◌}
use mathlib.Core.Option.{Option, none, some}
use native.Mathlib.Omega.{arith}

module _ {ℓ} {A : Type ℓ} where
  some-injective : {a b : A} → some a ≡ some b → a ≡ b
  some-injective e = cc

  abbrev pub length : List A → ℕ
  length [] = 0
  length (x ∷ xs) = suc (length xs)

  abbrev pub get_elem? : List A → ℕ → Option A
  get_elem? [] i = none
  get_elem? (x ∷ xs) zero = some x
  get_elem? (x ∷ xs) (suc i) = get_elem? xs i

  abbrev pub set : List A → ℕ → A → List A
  set [] i v = []
  set (x ∷ xs) zero v = v ∷ xs
  set (x ∷ xs) (suc i) v = x ∷ set xs i v

  abbrev pub take : ℕ → List A → List A
  take zero xs = []
  take (suc n) [] = []
  take (suc n) (x ∷ xs) = x ∷ take n xs

  abbrev pub drop : ℕ → List A → List A
  drop zero xs = xs
  drop (suc n) [] = []
  drop (suc n) (x ∷ xs) = drop n xs

  abbrev pub replicate : ℕ → A → List A
  replicate zero a = []
  replicate (suc n) a = a ∷ replicate n a

  pub length-append : (xs ys : List A) → length (xs ++ ys) ≡ length xs + length ys
  length-append [] ys = omega arith
  length-append (x ∷ xs) ys = omega (arith, length-append xs ys)

  pub length-set : (xs : List A) (i : ℕ) (v : A) → length (set xs i v) ≡ length xs
  length-set [] i v = refl
  length-set (x ∷ xs) zero v = refl
  length-set (x ∷ xs) (suc i) v = ap suc (length-set xs i v)

  pub length-replicate : (n : ℕ) (a : A) → length (replicate n a) ≡ n
  length-replicate zero a = refl
  length-replicate (suc n) a = ap suc (length-replicate n a)

  pub get_elem?-set_self :
      (xs : List A) (i : ℕ) (v : A) → i < length xs → get_elem? (set xs i v) i ≡ some v
  get_elem?-set_self [] i v h = absurd (omega arith)
  get_elem?-set_self (x ∷ xs) zero v h = refl
  get_elem?-set_self (x ∷ xs) (suc i) v h = get_elem?-set_self xs i v (omega arith)

  pub get_elem?-set_ne :
      (xs : List A) (i j : ℕ) (v : A) → i ≢ j → get_elem? (set xs i v) j ≡ get_elem? xs j
  get_elem?-set_ne [] i j v h = refl
  get_elem?-set_ne (x ∷ xs) zero zero v h = absurd (h refl)
  get_elem?-set_ne (x ∷ xs) zero (suc j) v h = refl
  get_elem?-set_ne (x ∷ xs) (suc i) zero v h = refl
  get_elem?-set_ne (x ∷ xs) (suc i) (suc j) v h = get_elem?-set_ne xs i j v (λ e. h (ap suc e))

  pub get_elem?_in_range :
      (xs : List A) (i : ℕ) → i < length xs → (a : A) × (get_elem? xs i ≡ some a)
  get_elem?_in_range [] i h = absurd (omega arith)
  get_elem?_in_range (x ∷ xs) zero h = (x, refl)
  get_elem?_in_range (x ∷ xs) (suc i) h = get_elem?_in_range xs i (omega arith)

  pub lt-length_of_get_elem? :
      (xs : List A) (i : ℕ) (a : A) → get_elem? xs i ≡ some a → i < length xs
  lt-length_of_get_elem? [] i a h = cc
  lt-length_of_get_elem? (x ∷ xs) zero a h = omega arith
  lt-length_of_get_elem? (x ∷ xs) (suc i) a h = omega (arith, lt-length_of_get_elem? xs i a h)

  -- Equal reads below `n` make equal lists of the first `n` elements.
  pub take_ext :
      (n : ℕ) (xs ys : List A)
      → n ≤ length xs
      → n ≤ length ys
      → ((i : ℕ) → i < n → get_elem? xs i ≡ get_elem? ys i)
      → take n xs ≡ take n ys
  take_ext zero xs ys h k same = refl
  take_ext (suc n) [] ys h k same = absurd (omega arith)
  take_ext (suc n) (x ∷ xs) [] h k same = absurd (omega arith)
  take_ext (suc n) (x ∷ xs) (y ∷ ys) h k same =
      ap₂ (λ z zs. z ∷ zs) (some-injective (same 0 (omega arith)))
        (take_ext n xs ys (omega arith) (omega arith) (λ i lt. same (suc i) (omega arith)))

  -- Writing just behind the first `n` elements appends to them.
  pub take-set :
      (n : ℕ) (xs : List A) (v : A)
      → n < length xs
      → take (suc n) (set xs n v) ≡ take n xs ++ v ∷ []
  take-set n [] v h = absurd (omega arith)
  take-set zero (x ∷ xs) v h = refl
  take-set (suc n) (x ∷ xs) v h = ap (λ zs. x ∷ zs) (take-set n xs v (omega arith))

  pub get_elem?-take : (n i : ℕ) (xs : List A) → i < n → get_elem? (take n xs) i ≡ get_elem? xs i
  get_elem?-take zero i xs h = absurd (omega arith)
  get_elem?-take (suc n) i [] h = refl
  get_elem?-take (suc n) zero (x ∷ xs) h = refl
  get_elem?-take (suc n) (suc i) (x ∷ xs) h = get_elem?-take n i xs (omega arith)

  pub take-take : (m n : ℕ) (xs : List A) → m ≤ n → take m (take n xs) ≡ take m xs
  take-take zero n xs h = refl
  take-take (suc m) zero xs h = absurd (omega arith)
  take-take (suc m) (suc n) [] h = refl
  take-take (suc m) (suc n) (x ∷ xs) h = ap (λ zs. x ∷ zs) (take-take m n xs (omega arith))

  pub take_all : (xs : List A) → take (length xs) xs ≡ xs
  take_all [] = refl
  take_all (x ∷ xs) = ap (λ zs. x ∷ zs) (take_all xs)

  -- A list that reads as the first `n` elements of one list and then as another.
  pub take_two :
      (n k : ℕ) (xs ys zs : List A)
      → k ≡ n + length ys
      → n ≤ length xs
      → k ≤ length zs
      → ((i : ℕ) → i < n → get_elem? zs i ≡ get_elem? xs i)
      → ((i : ℕ) → i < length ys → get_elem? zs (n + i) ≡ get_elem? ys i)
      → take k zs ≡ take n xs ++ ys
  take_two zero k xs ys zs e h l first then_ =
      take_ext k zs ys l (omega arith)
        (λ i lt. ap (get_elem? zs) {x = i} {y = 0 + i} (omega arith) ∙ then_ i (omega arith))
      ∙ ap (λ m. take m ys) (omega arith)
      ∙ take_all ys
  take_two (suc n) zero xs ys zs e h l first then_ = absurd (omega arith)
  take_two (suc n) (suc k) [] ys zs e h l first then_ = absurd (omega arith)
  take_two (suc n) (suc k) (x ∷ xs) ys [] e h l first then_ = absurd (omega arith)
  take_two (suc n) (suc k) (x ∷ xs) ys (z ∷ zs) e h l first then_ =
      ap₂ (λ a rest. a ∷ rest) (some-injective (first 0 (omega arith)))
        (take_two n k xs ys zs (omega arith) (omega arith) (omega arith)
          (λ i lt. first (suc i) (omega arith))
          (λ i lt.
            ap (get_elem? (z ∷ zs)) {x = suc (n + i)} {y = suc n + i} (omega arith) ∙ then_ i lt))

  pub get_elem?-drop : (n i : ℕ) (xs : List A) → get_elem? (drop n xs) i ≡ get_elem? xs (n + i)
  get_elem?-drop zero i xs = ap (get_elem? xs) (omega arith)
  get_elem?-drop (suc n) i [] = refl
  get_elem?-drop (suc n) i (x ∷ xs) =
      get_elem?-drop n i xs
      ∙ ap (get_elem? (x ∷ xs)) {x = suc (n + i)} {y = suc n + i} (omega arith)

  pub length-take : (n : ℕ) (xs : List A) → n ≤ length xs → length (take n xs) ≡ n
  length-take zero xs h = refl
  length-take (suc n) [] h = absurd (omega arith)
  length-take (suc n) (x ∷ xs) h = ap suc (length-take n xs (omega arith))

  pub length-drop : (n : ℕ) (xs : List A) → n ≤ length xs → length (drop n xs) + n ≡ length xs
  length-drop zero xs h = omega arith
  length-drop (suc n) [] h = absurd (omega arith)
  length-drop (suc n) (x ∷ xs) h = omega (arith, length-drop n xs (omega arith))
