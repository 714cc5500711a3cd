-- ===== src/Stack/Live.antt =====
-- The stack discipline: the blocks that are live, top first, as the headers record them, and what
-- allocating, freeing and reallocating do to that list.
use c_base.Base.{
  ℕ, zero, suc, ◌+◌, ◌-◌, ◌≤◌, ◌<◌, ◌≡◌, ◌≢◌, refl, sym, ap, ℕ_discrete, Option, none, some, List,
  [], ◌∷◌, arith, get_elem?,
}
use mathlib.Core.Path.{subst}
use c_base.Base.Run.{fault, Fault, Returns}
use c_base.Base.Word.{word_mod}
use c_base.Stack.{
  StackHeader, StackCtx, header_size, store, compute_stack_header_ptr, stack_alloc, stack_free,
  stack_realloc,
}
use c_base.Stack.Alloc.{IsValid, IsSane, Allocated, stack_alloc-Allocated, header_ptr_bounds}

abbrev pub header : ℕ → ℕ → StackHeader
header previous current = record { previous_offset = previous; current_offset = current }

-- Under an offset `o`, the blocks at `ps`, top first: each header leads from the end of its block to
-- the end of the block below it, and the lowest block's to 0.
abbrev pub IsChain : (ℕ → StackHeader) → ℕ → ℕ → List ℕ → Type 0
IsChain memory buffer o [] = o ≡ 0
IsChain memory buffer o (p ∷ ps) =
    (previous : ℕ) × (memory (compute_stack_header_ptr p) ≡ header previous o)
    × (buffer + previous + header_size ≤ p)
    × (p ≤ buffer + o)
    × IsChain memory buffer previous ps

-- The live blocks of a valid stack.
pub record IsLive (s : StackCtx) (ps : List ℕ) : Type 0 where
  pub valid : IsValid s
  pub chain : IsChain s.headers s.buffer s.offset ps

module _ (memory : ℕ → StackHeader) (buffer : ℕ) where
  -- A header written above the used part is none of those in the chain.
  IsChain-store :
      (o : ℕ) (ps : List ℕ) (at : ℕ) (h : StackHeader)
      → buffer + o < word_mod
      → buffer + o < at + header_size
      → IsChain memory buffer o ps
      → IsChain (store memory at h) buffer o ps
  IsChain-store o [] at h fits above c = c
  IsChain-store o (p ∷ ps) at h fits above (previous, e, low, high, rest) = (
    previous,
    ground (arith, below, e),
    low,
    high,
    IsChain-store previous ps at h (omega arith) (omega arith) rest,
  )
    where
      below : at ≢ compute_stack_header_ptr p
      below = omega (arith, header_ptr_bounds p (omega arith) (omega arith))

  -- The header of every live block records an end within the used part.
  IsChain-current :
      (o : ℕ) (ps : List ℕ) (i q : ℕ)
      → IsChain memory buffer o ps
      → get_elem? ps i ≡ some q
      → ((memory (compute_stack_header_ptr q)).current_offset ≤ o) × (buffer < q)
  IsChain-current o [] i q c e = cc
  IsChain-current o (p ∷ ps) zero q (previous, h, low, high, rest) e = ground arith
  IsChain-current o (p ∷ ps) (suc i) q (previous, h, low, high, rest) e =
      omega (arith, IsChain-current previous ps i q rest e)

-- What becomes of the live blocks at an allocation.
abbrev pub Pushed : List ℕ → Option ℕ × StackCtx → Type 0
Pushed ps (none, t) = IsLive t ps
Pushed ps (some p, t) = IsLive t (p ∷ ps)

pushed :
    (s : StackCtx) (size alignment : ℕ) (ps : List ℕ) (r : Option ℕ × StackCtx)
    → IsLive s ps
    → Allocated s size alignment r
    → Pushed ps r
pushed s size alignment ps (none, t) live (same, _) = rw same live
pushed s size alignment ps (some p, t) live (_, low, ends, e, v) = record {
  valid = v;
  chain =
      subst (λ (u : StackCtx). IsChain u.headers u.buffer u.offset (p ∷ ps)) (sym e)
        (s.offset, ground arith, low, omega (arith, ap StackCtx.buffer e), kept);
}
  where
    above : s.buffer + s.offset < compute_stack_header_ptr p + header_size
    above = omega (arith, header_ptr_bounds p (omega arith) (omega (arith, ap StackCtx.buffer e)))

    kept :
        IsChain
          (store s.headers (compute_stack_header_ptr p) (header s.offset t.offset))
          s.buffer
          s.offset
          ps
    kept =
        IsChain-store s.headers s.buffer s.offset ps (compute_stack_header_ptr p)
          (header s.offset t.offset) (omega arith) above live.chain

-- On a well-formed stack with live blocks `ps`, at a power of two for an alignment, and where neither
-- the end of the buffer nor the size wraps when the alignment and 64 bytes are added to it,
-- `stack_alloc` does not fault. It puts the new block on top of the live ones, with a header that leads
-- back to them, or leaves them alone if it is refused.
pub stack_alloc-IsLive :
    {s : StackCtx} {ps : List ℕ} (size alignment : ℕ)
    → IsLive s ps
    → IsSane s size alignment
    → Returns (stack_alloc s size alignment) (Pushed ps)
stack_alloc-IsLive {s} {ps} size alignment live sane =
    let (r, run, a) = stack_alloc-Allocated {s = s} size alignment live.valid sane in
    (r, run, pushed s size alignment ps r live a)

-- Freeing the block on top does not fault, and leaves the blocks below it.
pub stack_free-top :
    {s : StackCtx} {p : ℕ} {ps : List ℕ}
    → IsLive s (p ∷ ps)
    → Returns (stack_free s p) (λ t. IsLive t ps)
unfolding stack_free
stack_free-top {s} {p} live =
    let (previous, h, low, high, rest) = live.chain in
    (record s { offset = previous }, ground arith, record { valid = ground arith; chain = rest })

-- Freeing a live block that is not on top fails the assertion.
pub stack_free-not_top :
    {s : StackCtx} {p : ℕ} {ps : List ℕ} (i q : ℕ)
    → IsLive s (p ∷ ps)
    → get_elem? ps i ≡ some q
    → stack_free s q ≡ fault Fault.assertion
unfolding stack_free
stack_free-not_top {s} {p} {ps} i q live e =
    let (previous, h, low, high, rest) = live.chain in
    ground (arith, IsChain-current s.headers s.buffer previous ps i q rest e)

-- Resizing the block on top, from its size to another that fits the buffer and is not 0, does not
-- move it, keeps the blocks below it, and makes it end at the new offset.
pub stack_realloc-top :
    {s : StackCtx} {p : ℕ} {ps : List ℕ} (old_size new_size : ℕ)
    → IsLive s (p ∷ ps)
    → p + old_size ≡ s.buffer + s.offset
    → 0 < new_size
    → p + new_size ≤ s.buffer + s.capacity
    → Returns (stack_realloc s p old_size new_size) (λ (r : Option ℕ × StackCtx).
      (r.0 ≡ some p) × IsLive r.1 (p ∷ ps) × (p + new_size ≡ r.1.buffer + r.1.offset))
unfolding stack_realloc
stack_realloc-top {s} {p} {ps} old_size new_size live e pos fits =
    elim (ℕ_discrete new_size old_size) [
      | yes eq ↦ ((some p, s), ground arith, (refl, live, omega arith))
      | no ne ↦ (
        (
          some p,
          record s {
            offset = p + new_size - s.buffer;
            headers =
                store s.headers (compute_stack_header_ptr p)
                  (header live.chain.0 (p + new_size - s.buffer));
          },
        ),
        ground (arith, live.chain.1, live.chain.2),
        (
          refl,
          record { valid = omega (arith, live.chain.2); chain = resized },
          omega (arith, live.chain.2),
        ),
      )
    ]
  where
    above : s.buffer + live.chain.0 < compute_stack_header_ptr p + header_size
    above = omega (
      arith,
      live.chain.2,
      live.chain.3,
      header_ptr_bounds p (omega (arith, live.chain.2)) (omega (arith, live.chain.3)),
    )

    resized :
        IsChain
          (store s.headers
            (compute_stack_header_ptr p)
            (header live.chain.0 (p + new_size - s.buffer)))
          s.buffer
          (p + new_size - s.buffer)
          (p ∷ ps)
    resized = (
      live.chain.0,
      ground arith,
      live.chain.2,
      omega (arith, live.chain.2),
      IsChain-store s.headers s.buffer live.chain.0 ps (compute_stack_header_ptr p)
          (header live.chain.0 (p + new_size - s.buffer))
          (omega (arith, live.chain.2, live.chain.3)) above live.chain.4,
    )
