-- ===== src/Arena/Alloc.antt =====
-- `arena_alloc`: the block it returns, when it refuses, and what wraps.
use c_base.Base.{
  ℕ, ◌+◌, ◌≤◌, ◌<◌, ◌≡◌, refl, ap, ◌∙◌, Option, none, some, arith, ltb, if◌then◌else◌, ◌-◌,
}
use c_base.Base.Run.{ok, ◌>>=◌, Returns}
use c_base.Base.Word.{add_size, word_mod}
use c_base.Align.{align_up, check_alignment}
use c_base.Align.Bounds.{IsAlignment, IsAlignUp, align_up-IsAlignUp}
use c_base.Align.Power.{check_alignment_iff}
use c_base.Arena.{ArenaCtx, arena_bump, arena_alloc}

-- The buffer is an object in memory, so it does not wrap round the address space.
pub record IsValid (s : ArenaCtx) : Type 0 where
  pub placed : 0 < s.buffer
  pub ends : s.buffer + s.capacity < word_mod
  pub within : s.offset ≤ s.capacity

-- A request whose padded size and padded address do not wrap.
pub record IsSane (s : ArenaCtx) (size alignment : ℕ) : Type 0 where
  pub alignment_ok : IsAlignment alignment
  pub address_fits : s.buffer + s.capacity + alignment ≤ word_mod
  pub size_fits : size + alignment ≤ word_mod

-- A null result leaves the arena alone, and means that the block at the first aligned address does
-- not fit. Any other result is that address; the block ends where the new free space begins.
abbrev pub Allocated : ArenaCtx → ℕ → ℕ → Option ℕ × ArenaCtx → Type 0
Allocated s size alignment (none, t) =
    (t ≡ s) × (s.buffer + s.capacity < align_up (s.buffer + s.offset) alignment + size)
Allocated s size alignment (some p, t) =
    IsAlignUp (s.buffer + s.offset) alignment p
    × (p + size ≡ t.buffer + t.offset)
    × (t.buffer ≡ s.buffer)
    × (t.capacity ≡ s.capacity)
    × IsValid t

-- `arena_bump` with the sums that do not wrap written plainly.
bump_plain :
    (s : ArenaCtx) (size q : ℕ)
    → IsValid s
    → s.buffer + s.offset ≤ q
    → q < word_mod
    → q - (s.buffer + s.offset) + size < word_mod
    → (alignment : ℕ) → align_up (s.buffer + s.offset) alignment ≡ q
    → arena_bump s size alignment ≡ (
        if ltb (s.buffer + s.capacity) (q + size)
        then (none, s)
        else (some q, record s { offset = q + size - s.buffer }))
unfolding arena_bump
bump_plain s size q v above fits room alignment e = ground (arith, plain)
  where
    plain : align_up (add_size s.buffer s.offset) alignment ≡ q
    plain = ap (λ (t : ℕ). align_up t alignment) (omega arith) ∙ e

module _ {s : ArenaCtx} (size alignment : ℕ) (valid : IsValid s)
    (sane : IsSane s size alignment) where
  target : IsAlignUp (s.buffer + s.offset) alignment (align_up (s.buffer + s.offset) alignment)
  target = align_up-IsAlignUp (s.buffer + s.offset) sane.alignment_ok (omega arith)

  arena_bump-Allocated : Allocated s size alignment (arena_bump s size alignment)
  arena_bump-Allocated =
      rw
        (bump_plain s size (align_up (s.buffer + s.offset) alignment) valid target.above
          (omega (arith, target)) (omega (arith, target)) alignment refl)
        (ground (arith, target))

  -- On a valid arena and a request that does not wrap, `arena_alloc` does not fault. It returns null
  -- and leaves the arena alone when the block at the next aligned address would end beyond the
  -- buffer; otherwise it returns that address, the block ends at the new offset, and the arena is
  -- valid again.
  pub arena_alloc-Allocated : Returns (arena_alloc s size alignment) (Allocated s size alignment)
  unfolding arena_alloc
  arena_alloc-Allocated = (arena_bump s size alignment, rw (accepted, ◌>>=◌), arena_bump-Allocated)
    where
      accepted : check_alignment alignment ≡ ok tt
      accepted = (check_alignment_iff alignment (omega arith)).1 sane.alignment_ok

-- `padding + size` is not checked for overflow: on a valid arena, at a power of two for which the
-- padded address does not wrap, whenever the padding before the next aligned
-- address and the size add up to 2 ^ 64, the arena returns that address and stays as it was.
pub arena_alloc_overflow :
    {s : ArenaCtx} (size alignment : ℕ)
    → IsValid s
    → IsAlignment alignment
    → s.buffer + s.capacity + alignment ≤ word_mod
    → align_up (s.buffer + s.offset) alignment + size ≡ word_mod + s.buffer + s.offset
    → arena_alloc s size alignment ≡ ok (some (align_up (s.buffer + s.offset) alignment), s)
unfolding arena_alloc arena_bump
arena_alloc_overflow {s} size alignment v a f e =
    rw (accepted, ◌>>=◌, plain) (ground (arith, target))
  where
    target : IsAlignUp (s.buffer + s.offset) alignment (align_up (s.buffer + s.offset) alignment)
    target = align_up-IsAlignUp (s.buffer + s.offset) a (omega arith)

    plain : add_size s.buffer s.offset ≡ s.buffer + s.offset
    plain = omega arith

    accepted : check_alignment alignment ≡ ok tt
    accepted = (check_alignment_iff alignment (omega arith)).1 a
