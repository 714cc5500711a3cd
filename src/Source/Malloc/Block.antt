-- ===== src/Source/Malloc/Block.antt =====
-- The blocks of `malloc_reserve`, and what the statistics say of them once they are released.
use native.Mathlib.Nat.{one-le-pow, pow-le-pow_right}
use c_base.Base.{
  ℕ, ◌+◌, ◌%◌, ◌≤◌, ◌<◌, ◌≡◌, ◌∙◌, ap, refl, Option, none, some, arith, leb, dec_lt, true, false,
}
use c_base.Base.Run.{ok, ◌>>=◌, Returns}
use c_base.Base.Word.{word_mod, max_alignment}
use c_base.Align.{align_up, check_alignment}
use c_base.Align.Bounds.{IsAlignment, IsAlignUp, align_up-IsAlignUp}
use c_base.Align.Power.{check_alignment_iff}
use c_base.Source.Cmalloc.{min_alignment}
use c_base.Source.Cmalloc.Block.{min_alignment-multiple, nonzero}
use c_base.Source.Library.{CLibrary, IsLibrary, Given}
use c_base.Source.Malloc.{MallocCtx, counted, malloc_reserve, malloc_release}
use c_base.Source.Stats.{stattrack_reserve, stattrack_release}

-- A null result with nothing counted, or an aligned live block of `n` bytes, counted as such, of which
-- less than the alignment is not asked for. Releasing it frees it, and counts the size that is given
-- then.
abbrev pub Reserved :
    {H : Type 0}
    → CLibrary H
    → (H → ℕ → ℕ → Type 0)
    → MallocCtx H
    → ℕ
    → ℕ
    → Option ℕ × MallocCtx H
    → Type 0
Reserved lib live c size alignment (none, d) = d.stats ≡ c.stats
Reserved lib live c size alignment (some p, d) =
    (n : ℕ) × (p % alignment ≡ 0)
    × (size ≤ n)
    × (n < size + alignment)
    × live d.heap p n
    × (d.stats ≡ stattrack_reserve c.stats n)
    × Returns (malloc_release lib d p size)
        (λ t. (lib.free d.heap p ≡ ok t.heap) × (t.stats ≡ stattrack_release d.stats size))

small_test : (a : ℕ) → a ≤ max_alignment → leb a max_alignment ≡ true
small_test a h = ground arith

wide_test : (a : ℕ) → max_alignment < a → leb a max_alignment ≡ false
wide_test a h = ground arith

small_multiple : (a p : ℕ) → IsAlignment a → a ≤ max_alignment → p % 16 ≡ 0 → p % a ≡ 0
small_multiple a p al h e = min_alignment-multiple a p al (rw same e)
  where
    same : min_alignment a ≡ 16
    same = ground arith

positive : (a : ℕ) → IsAlignment a → 0 < a
positive a (k, small, e) = omega (arith, e, one-le-pow k 2 (omega arith))

below_word : (a : ℕ) → IsAlignment a → a < word_mod
below_word a (k, small, e) =
    omega (arith, e, pow-le-pow_right {n = 2} (omega arith) {i = k} {j = 63} (omega arith))

module _ {H : Type 0} (live : H → ℕ → ℕ → Type 0) where
  Given-multiple :
      (alignment n : ℕ) (r : Option ℕ × H)
      → Given live alignment n r
      → (p : ℕ) → r.0 ≡ some p
      → p % alignment ≡ 0
  Given-multiple alignment n (none, h) g p e = cc
  Given-multiple alignment n (some q, h) (pos, m, fits, l) p e = ap (λ t. t % alignment) same ∙ m
    where
      same : p ≡ q
      same = cc

  Given-any : (alignment n : ℕ) (r : Option ℕ × H) → Given live alignment n r → Given live 1 n r
  Given-any alignment n (none, h) g = tt
  Given-any alignment n (some q, h) (pos, m, fits, l) = (pos, omega arith, fits, l)

module _ {H : Type 0} {lib : CLibrary H} {live : H → ℕ → ℕ → Type 0}
    (laws : IsLibrary lib live) where
  release_frees :
      (d : MallocCtx H) (p size n : ℕ)
      → 0 < p
      → live d.heap p n
      → Returns
          (malloc_release lib d p size)
          (λ t. (lib.free d.heap p ≡ ok t.heap) × (t.stats ≡ stattrack_release d.stats size))
  unfolding malloc_release
  release_frees d p size n pos l =
      let (h, run, _) = laws.frees d.heap p n l in
      (
        record { stats = stattrack_release d.stats size; heap = h },
        rw (nonzero p pos, run, ◌>>=◌) refl,
        (run, refl),
      )

  module _ (c : MallocCtx H) (size alignment flags : ℕ) (a : IsAlignment alignment)
      (sane : size + alignment ≤ word_mod) where
    -- `counted` on a block that the library gives
    counted-Reserved :
        (n : ℕ) (r : Option ℕ × H)
        → size ≤ n
        → n < size + alignment
        → ((p : ℕ) → r.0 ≡ some p → p % alignment ≡ 0)
        → Given live 1 n r
        → Reserved lib live c size alignment (counted lib c n r)
    counted-Reserved n (none, h) le lt al g = refl
    counted-Reserved n (some p, h) le lt al (pos, _, fits, l) = (
      n,
      al p refl,
      le,
      lt,
      l,
      refl,
      release_frees (record { stats = stattrack_reserve c.stats n; heap = h }) p size n pos l,
    )

    padded : IsAlignUp size alignment (align_up size alignment)
    padded = align_up-IsAlignUp size a sane

    accepted : check_alignment alignment ≡ ok tt
    accepted = (check_alignment_iff alignment (below_word alignment a)).1 a

    -- For a power of two as the alignment, and a request that does not wrap with its padding,
    -- `malloc_reserve` over a library that behaves as documented does not fault. It returns null and
    -- counts nothing, or returns an aligned live block that has the size asked for and less than the
    -- alignment more, and counts its bytes. Releasing the block does not fault, frees it, and counts
    -- the size asked for.
    pub malloc_reserve-Reserved :
        Returns (malloc_reserve lib c size alignment flags) (Reserved lib live c size alignment)
    unfolding malloc_reserve
    malloc_reserve-Reserved = elim (dec_lt max_alignment alignment) [
      | no q ↦ small (omega arith) (laws.allocates c.heap size)
      | yes q ↦ wide q (laws.aligns c.heap alignment (align_up size alignment) a padded.multiple)
    ]
      where
        small :
            alignment ≤ max_alignment
            → Returns (lib.malloc c.heap size) (Given live max_alignment size)
            → Returns
                (malloc_reserve lib c size alignment flags)
                (Reserved lib live c size alignment)
        small q (r, run, g) = (
          counted lib c size r,
          rw (accepted, ◌>>=◌, small_test alignment q, run, ◌>>=◌) refl,
          counted-Reserved size r (omega arith) (omega (arith, positive alignment a))
              (λ p e.
                small_multiple alignment p a q (Given-multiple live max_alignment size r g p e))
              (Given-any live max_alignment size r g),
        )

        wide :
            max_alignment < alignment
            → Returns
                (lib.aligned_alloc c.heap alignment (align_up size alignment))
                (Given live alignment (align_up size alignment))
            → Returns
                (malloc_reserve lib c size alignment flags)
                (Reserved lib live c size alignment)
        wide q (r, run, g) = (
          counted lib c (align_up size alignment) r,
          rw (accepted, ◌>>=◌, wide_test alignment q, run, ◌>>=◌) refl,
          counted-Reserved (align_up size alignment) r padded.above padded.near
              (Given-multiple live alignment (align_up size alignment) r g)
              (Given-any live alignment (align_up size alignment) r g),
        )
