-- ===== src/Source/Buffer/Overrun.antt =====
-- `buffer_release` of a block in front of a free one, the second join of memory.c.
use c_base.Base.{
  ℕ, ◌+◌, ◌%◌, ◌^◌, ◌≤◌, ◌<◌, ◌≡◌, ap, sym, ◌∙◌, inl, inr, List, [], ◌∷◌, true, arith, ◌-◌, some,
  refl, eq→==, le→ltb,
}
use c_base.Base.Run.{Run, ok, Returns}
use c_base.Base.Word.{word_mod}
use c_base.Align.Bounds.{IsAlignment}
use mathlib.Core.Path.{subst}
use c_base.Source.Buffer.Reserve.{buffer_reserve-Reserved}
use c_base.Source.Stats.{stattrack_release}
use c_base.Source.Buffer.{
  BufferBlock, BufferAllocCtx, buffer_ctx, buffer_reserve, buffer_release, join_block, join_next,
  free_block,
}
use c_base.Source.Buffer.Chain.{
  Node, vacant, taken, limit, chain_end, IsBuffer, HasRoom, take_node, address,
}
use c_base.Source.Buffer.Free.{freed_here, freed_elsewhere, freed_size}
use c_base.Source.Buffer.Join.{join_block_next, join_next_size}
use c_base.Source.Buffer.Release.{release_run, buffer_ctx-IsBuffer}

module _ (s : BufferAllocCtx) (b p n e m : ℕ) (xs : List Node)
    (v : IsBuffer s (taken b p n ∷ vacant e m ∷ xs))
    (bounded : s.buffer + s.capacity < 2 ^ 63) where
  abbrev stop : ℕ
  stop = s.buffer + s.capacity

  abbrev given : ℕ → BufferBlock
  given = free_block s.blocks b p

  here : (given b).next ≡ e
  here =
      ap BufferBlock.next
        (freed_here s.blocks s.owners stop b p n 0 s.first (vacant e m ∷ xs) bounded v.chain)
      ∙ v.chain.5.0

  none_before : (given b).prev ≡ 0
  none_before =
      ap BufferBlock.prev
        (freed_here s.blocks s.owners stop b p n 0 s.first (vacant e m ∷ xs) bounded v.chain)
      ∙ v.chain.3

  tail_kept : given ((given b).next) ≡ s.blocks e
  tail_kept =
      ap given here
      ∙ freed_elsewhere s.blocks s.owners stop b p n 0 s.first (vacant e m ∷ xs) bounded v.chain e
          (omega (arith, v.chain.2))

  joined : join_block given b ≡ join_next given b
  joined =
      join_block_next given b (inl none_before) (λ z. omega (arith, z, here, v.chain.5.1))
        (ap BufferBlock.free tail_kept ∙ v.chain.5.4.0)

  tail_after :
      join_block given b e
      ≡ record (s.blocks e) { prev = 0; size = ((s.blocks e).size + (given b).size) % 2 ^ 64 }
  tail_after =
      ap (λ k. k e) joined
      ∙ ap (join_next given b) (sym here)
      ∙ join_next_size given b none_before (λ z. omega (arith, z, here, v.chain.2))
      ∙ ap (λ (k : BufferBlock). record k { prev = 0; size = (k.size + (given b).size) % 2 ^ 64 })
          tail_kept

  -- In a buffer in the lower half of the address space, when the first block is released and the free
  -- block behind it comes within 40 bytes of its limit, as it does when `buffer_reserve` made it, that
  -- block is free and claims memory beyond its limit, the next block or the end of the buffer.
  pub buffer_release-Overrun :
      (size : ℕ)
      → limit xs stop < e + (s.blocks e).size + 40
      → Returns
          (buffer_release s p size)
          (λ t. ((t.blocks e).free ≡ true) × (limit xs stop < e + (t.blocks e).size))
  buffer_release-Overrun size near = (
    record s { stats = stattrack_release s.stats size; blocks = join_block given b },
    release_run s b p size (omega (arith, v.chain.4))
        (ap s.owners (omega (arith, v.chain.4, low, bounded)) ∙ v.chain.4.2),
    (
      ap BufferBlock.free tail_after ∙ v.chain.5.4.0,
      omega (arith, ap BufferBlock.size tail_after, given_size, v.chain.4, v.chain.5.4, low, near),
    ),
  )
    where
      given_size : (given b).size + b ≡ p + n
      given_size =
          freed_size s.blocks s.owners stop b p n 0 s.first (vacant e m ∷ xs) bounded v.chain

      low : (limit xs stop ≤ stop) × (e + 32 ≤ limit xs stop)
      low = (chain_end s.blocks s.owners stop e ((s.blocks e).next) xs v.chain.5.5, v.chain.5.2)

-- What holds of every result holds of the one that is there.
result_of {ℓ} :
    {A : Type ℓ} {run : Run A} {post : A → Type 0} {x : A} → Returns run post → run ≡ ok x → post x
result_of {post} (y, e, holds) e' = subst post (cc (e, e')) holds

-- The only block of a fresh buffer is the one with room.
fresh_room :
    (b p size first bytes : ℕ) → HasRoom b p size (vacant first bytes ∷ []) → (b ≡ first) × (b < p)
fresh_room b p size first bytes (inl (n, e, behind, within)) =
    (sym (ap address e), omega (arith, behind))
fresh_room b p size first bytes (inr h) = elim h [ ]

-- In a fresh buffer of more than a header, in the lower half of the address space less the alignment,
-- let `buffer_reserve` return a pointer, at a power of two for an alignment, with room for a header
-- between the end of the request and the end of the buffer. To release that pointer does not fault,
-- and leaves a free block behind it that claims memory beyond the end of the buffer.
pub buffer_release_fresh :
    (memory : ℕ → BufferBlock) (pointers : ℕ → ℕ) (buffer buffer_size size alignment flags p : ℕ)
    (t : BufferAllocCtx)
    → 0 < buffer
    → 32 < buffer_size
    → IsAlignment alignment
    → (buffer + buffer_size) + (buffer + buffer_size) + 40 + alignment ≤ word_mod
    → buffer_reserve (buffer_ctx memory pointers buffer buffer_size) size alignment flags
      ≡ ok (some p, t)
    → p + size + 32 ≤ buffer + buffer_size
    → Returns (buffer_release t p size) (λ u.
      ((u.blocks (p + size)).free ≡ true)
      × (buffer + buffer_size < (p + size) + (u.blocks (p + size)).size))
unfolding buffer_ctx
buffer_release_fresh memory pointers buffer buffer_size size alignment flags p t pos room a sane e
      left =
    let (b, _, has, v, _, at, whole) =
      result_of
        (buffer_reserve-Reserved fresh (vacant buffer (buffer_size - 32) ∷ []) size alignment flags
          (buffer_ctx-IsBuffer memory pointers buffer buffer_size pos room (omega arith)) a sane)
        e in
    let (is, behind) = fresh_room b p size buffer (buffer_size - 32) has in
    let held = subst (IsBuffer t) (nodes b is) v in
    let (u, run, (free, beyond)) =
      buffer_release-Overrun t b p size (p + size) (buffer + buffer_size - (p + size) - 32) [] held
        (omega (arith, at, whole, sane)) size (omega (arith, at, whole, left, held.chain.5.4.1)) in
    (u, run, (free, omega (arith, at, whole, beyond)))
  where
    fresh : BufferAllocCtx
    fresh = buffer_ctx memory pointers buffer buffer_size

    nodes :
        (b : ℕ)
        → b ≡ buffer
        → take_node (buffer + buffer_size) b p size (vacant buffer (buffer_size - 32) ∷ [])
          ≡ taken b p size ∷ vacant (p + size) (buffer + buffer_size - (p + size) - 32) ∷ []
    nodes b is =
        rw (eq→== buffer b (sym is), le→ltb (buffer + buffer_size) (p + size + 32) left) refl
