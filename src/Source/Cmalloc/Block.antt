-- ===== src/Source/Cmalloc/Block.antt =====
-- Where `cmalloc_reserve` puts a block inside that of `malloc`, and that `cmalloc_release` finds it.
use native.Mathlib.Nat.{pow-le-pow_right}
use c_base.Base.{
  ℕ, zero, suc, ◌+◌, ◌-◌, ◌%◌, ◌^◌, ◌≤◌, ◌<◌, ◌≡◌, refl, ap, ◌∙◌, Option, none, some, arith, ◌==◌,
  dec_lt, lt→ltb, le→ltb, false,
}
use c_base.Base.Memory.{write, write_self}
use c_base.Base.Run.{ok, ◌>>=◌, Returns}
use c_base.Base.Word.{add_size, sub_size, word_mod, max_alignment}
use c_base.Align.{check_alignment}
use c_base.Align.Bounds.{IsAlignment, IsAlignUp, align_up-IsAlignUp}
use c_base.Align.Power.{check_alignment_iff}
use c_base.Source.Cmalloc.{
  CmallocCtx, manual_header_size, min_alignment, max_size, aligned_in, cmalloc_reserve,
  cmalloc_release,
}
use c_base.Source.Library.{CLibrary, IsLibrary, Given}
use c_base.Source.Stats.{stattrack_reserve, stattrack_release}

pub nonzero : (n : ℕ) → 0 < n → (n == 0) ≡ false
nonzero n h = ground arith

multiple_of_16 : (k p : ℕ) → k < 4 → p % 16 ≡ 0 → p % 2 ^ k ≡ 0
multiple_of_16 zero p h e = omega (arith, e)
multiple_of_16 (suc zero) p h e = omega (arith, e)
multiple_of_16 (suc (suc zero)) p h e = omega (arith, e)
multiple_of_16 (suc (suc (suc zero))) p h e = omega (arith, e)
multiple_of_16 (suc (suc (suc (suc k)))) p h e = absurd (omega arith)

-- What is aligned to the larger of an alignment and 16 is aligned to it.
pub min_alignment-multiple :
    (alignment p : ℕ) → IsAlignment alignment → p % min_alignment alignment ≡ 0 → p % alignment ≡ 0
min_alignment-multiple alignment p (k, small, e) h = elim (dec_lt alignment max_alignment) [
  | no q ↦ rw (le→ltb alignment max_alignment (omega arith)) at h
  | yes q ↦
      ap (λ a. p % a) e ∙ multiple_of_16 k p (few q) (rw (lt→ltb alignment max_alignment q) at h)
]
  where
    few : alignment < 16 → k < 4
    few q = elim (dec_lt k 4) [
      | yes r ↦ r
      | no r ↦
          absurd
            (omega (arith, e, pow-le-pow_right {n = 2} (omega arith) {i = 4} {j = k} (omega arith)))
    ]

min_alignment-IsAlignment :
    (alignment : ℕ) → IsAlignment alignment → IsAlignment (min_alignment alignment)
min_alignment-IsAlignment alignment a = elim (dec_lt alignment max_alignment) [
  | yes q ↦ rw (lt→ltb alignment max_alignment q) (4, omega arith, refl)
  | no q ↦ rw (le→ltb alignment max_alignment (omega arith)) a
]

-- The block at `p` lies behind its header in a live block of `malloc` at `raw`, whose address the
-- header holds.
pub record IsInside {H : Type 0} (live : H → ℕ → ℕ → Type 0) (size alignment p raw : ℕ)
    (c : CmallocCtx H) : Type 0 where
  pub aligned : p % alignment ≡ 0
  pub header : c.headers (p - manual_header_size) ≡ raw
  pub behind : raw + manual_header_size ≤ p
  pub within : p + size ≤ raw + max_size size (min_alignment alignment)
  pub is_live : live c.heap raw (max_size size (min_alignment alignment))

-- A null result, or a block inside one of `malloc`, that `cmalloc_release` gives back whole: it frees
-- the block of `malloc`, and as many bytes are counted as freed as were counted as allocated.
abbrev pub Reserved :
    {H : Type 0}
    → CLibrary H
    → (H → ℕ → ℕ → Type 0)
    → CmallocCtx H
    → ℕ
    → ℕ
    → Option ℕ × CmallocCtx H
    → Type 0
Reserved lib live c size alignment (none, d) = d.headers ≡ c.headers
Reserved lib live c size alignment (some p, d) =
    (raw : ℕ) × IsInside live size alignment p raw d
    × Returns (cmalloc_release lib d p size) (λ t.
      (lib.free d.heap raw ≡ ok t.heap)
      × (t.stats ≡ stattrack_release (stattrack_reserve c.stats size) size))

module _ {H : Type 0} {lib : CLibrary H} {live : H → ℕ → ℕ → Type 0}
    (laws : IsLibrary lib live) where
  release_frees :
      (d : CmallocCtx H) (p size raw n : ℕ)
      → 0 < p
      → d.headers (sub_size p manual_header_size) ≡ raw
      → live d.heap raw n
      → Returns
          (cmalloc_release lib d p size)
          (λ t. (lib.free d.heap raw ≡ ok t.heap) × (t.stats ≡ stattrack_release d.stats size))
  unfolding cmalloc_release
  release_frees d p size raw n pos e l =
      let (h, run, _) = laws.frees d.heap raw n l in
      (
        record d { stats = stattrack_release d.stats size; heap = h },
        rw (nonzero p pos, e, run, ◌>>=◌) refl,
        (run, refl),
      )

  module _ (c : CmallocCtx H) (size alignment flags : ℕ) (a : IsAlignment alignment)
      (sane : size + alignment + 24 ≤ word_mod) where
    abbrev wide : ℕ
    wide = min_alignment alignment

    wide_bounds : (16 ≤ wide) × (wide ≤ alignment + 16)
    wide_bounds = ground arith

    whole : max_size size wide ≡ size + wide + 7
    whole = omega (arith, wide_bounds, min_alignment-IsAlignment alignment a)

    -- For a power of two as the alignment, and a request that does not wrap with its padding,
    -- `cmalloc_reserve` over a library that behaves as documented does not fault. It returns null, or
    -- an aligned block that lies, behind its header, in a live block of `malloc`. Releasing it does
    -- not fault, frees that block, and counts as many bytes as were counted for it.
    pub cmalloc_reserve-Reserved :
        Returns (cmalloc_reserve lib c size alignment flags) (Reserved lib live c size alignment)
    unfolding cmalloc_reserve
    cmalloc_reserve-Reserved = go (laws.allocates c.heap (max_size size wide))
      where
        accepted : check_alignment alignment ≡ ok tt
        accepted = (check_alignment_iff alignment (omega arith)).1 a

        inside :
            (raw : ℕ)
            → 0 < raw
            → raw + max_size size wide < word_mod
            → IsAlignUp (raw + 8) wide (aligned_in raw wide)
        inside raw pos fits = rw plain (
            align_up-IsAlignUp (raw + 8) (min_alignment-IsAlignment alignment a)
              (omega (arith, whole, wide_bounds)))
          where
            plain : add_size raw manual_header_size ≡ raw + 8
            plain = omega (arith, whole, wide_bounds)

        at_header :
            (raw : ℕ)
            → 0 < raw
            → raw + max_size size wide < word_mod
            → sub_size (aligned_in raw wide) manual_header_size
              ≡ aligned_in raw wide - manual_header_size
        at_header raw pos fits = omega (arith, inside raw pos fits, whole)

        made : (raw : ℕ) → H → CmallocCtx H
        made raw h = record {
          stats = stattrack_reserve c.stats size;
          heap = h;
          headers = write c.headers (sub_size (aligned_in raw wide) manual_header_size) raw;
        }

        go :
            Returns
              (lib.malloc c.heap (max_size size wide))
              (Given live max_alignment (max_size size wide))
            → Returns
                (cmalloc_reserve lib c size alignment flags)
                (Reserved lib live c size alignment)
        go ((none, h), run, _) = (
          (none, record c { stats = stattrack_reserve c.stats size; heap = h }),
          rw (accepted, ◌>>=◌, run, ◌>>=◌) refl,
          refl,
        )
        go ((some raw, h), run, (pos, _, fits, l)) = (
          (some (aligned_in raw wide), made raw h),
          rw (accepted, ◌>>=◌, run, ◌>>=◌) refl,
          (
            raw,
            record {
              aligned =
                  min_alignment-multiple alignment (aligned_in raw wide) a
                    (inside raw pos fits).multiple;
              header =
                  rw (at_header raw pos fits) (write_self c.headers (aligned_in raw wide - 8) raw);
              behind = omega (arith, inside raw pos fits);
              within = omega (arith, inside raw pos fits, whole);
              is_live = l;
            },
            release_frees (made raw h) (aligned_in raw wide) size raw (max_size size wide)
                (omega (arith, inside raw pos fits))
                (write_self c.headers (sub_size (aligned_in raw wide) manual_header_size) raw) l,
          ),
        )
