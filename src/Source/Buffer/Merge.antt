-- ===== src/Source/Buffer/Merge.antt =====
-- The block that `buffer_release` joins to the free block before it.
use c_base.Base.{
  ℕ, ◌+◌, ◌-◌, ◌^◌, ◌≤◌, ◌<◌, ◌≡◌, ◌≢◌, refl, ap, sym, ◌∙◌, ◌⊎◌, inl, inr, List, ◌∷◌, arith,
}
use mathlib.Core.Path.{subst}
use c_base.Base.Word.{add_size}
use c_base.Source.Buffer.{BufferBlock, join_block, join_prev, free_block}
use c_base.Source.Buffer.Join.{join_block_prev, join_prev_prev, join_prev_next, join_prev_ne}
use c_base.Source.Buffer.Chain.{
  Node, vacant, taken, limit, IsChain, chain_end, IsChain-relink, IsOccupied,
}
use c_base.Source.Buffer.Free.{
  freed_block, freed_here, freed_elsewhere, freed_size, next_case, next_elsewhere, IsIdle-next,
}

-- The block is behind the free block at `c`, which takes it over.
module _ (blocks : ℕ → BufferBlock) (owners : ℕ → ℕ) (stop c m b ptr n prev p : ℕ) (xs : List Node)
    (bounded : stop < 2 ^ 63) (occupied : IsOccupied xs)
    (chain : IsChain blocks owners stop prev p (vacant c m ∷ taken b ptr n ∷ xs)) where
  abbrev tail : IsChain blocks owners stop c ((blocks c).next) (taken b ptr n ∷ xs)
  tail = chain.5

  abbrev given : ℕ → BufferBlock
  given = free_block blocks b ptr

  given_here : given b ≡ freed_block blocks owners stop b ptr n c ((blocks c).next) xs bounded tail
  given_here = freed_here blocks owners stop b ptr n c ((blocks c).next) xs bounded tail

  given_elsewhere : (q : ℕ) → q ≢ b → given q ≡ blocks q
  given_elsewhere = freed_elsewhere blocks owners stop b ptr n c ((blocks c).next) xs bounded tail

  given_prev : (given b).prev ≡ c
  given_prev = ap BufferBlock.prev given_here ∙ tail.3

  given_next : (given b).next ≡ (blocks b).next
  given_next = ap BufferBlock.next given_here

  order : c + 32 ≤ b
  order = chain.2

  beyond : ((blocks b).next ≡ 0) ⊎ ((blocks b).next ≡ limit xs stop)
  beyond = next_case blocks owners stop b ptr n c ((blocks c).next) xs bounded tail

  -- the three blocks are different
  b_c : b ≢ (given b).prev
  b_c e = omega (arith, e, given_prev, order)

  b_next : b ≢ (given b).next
  b_next e =
      next_elsewhere blocks owners stop b ptr n c ((blocks c).next) xs bounded tail (e ∙ given_next)

  c_next : (given b).prev ≢ (given b).next
  c_next e = omega (arith, e, given_prev, given_next, order, beyond, chain.1, tail.2)

  joined : join_block given b ≡ join_prev given b
  joined =
      join_block_prev given b b_c b_next c_next (rw given_prev (omega (arith, chain.1)))
        (ap (λ q. (given q).free) given_prev
          ∙ ap BufferBlock.free (given_elsewhere c (omega (arith, order)))
          ∙ chain.4.0)
        (IsIdle-next blocks owners stop b ptr n c ((blocks c).next) xs bounded tail occupied)

  merged_prev :
      join_block given b c
      ≡ record (blocks c) { next = (blocks b).next; size = add_size (blocks c).size (given b).size }
  merged_prev =
      ap (λ k. k c) joined
      ∙ ap (join_prev given b) (sym given_prev)
      ∙ join_prev_prev given b b_c b_next c_next
      ∙ ap
          (λ (k : BufferBlock). record k {
            next = (given b).next;
            size = add_size k.size (given b).size;
          })
          (ap given given_prev ∙ given_elsewhere c (omega (arith, order)))
      ∙ ap (λ q. record (blocks c) { next = q; size = add_size (blocks c).size (given b).size })
          given_next

  merged_next :
      (blocks b).next ≢ 0
      → join_block given b ((blocks b).next) ≡ record (blocks ((blocks b).next)) { prev = c }
  merged_next pos =
      ap (λ k. k ((blocks b).next)) joined
      ∙ ap (join_prev given b) (sym given_next)
      ∙ join_prev_next given b b_c b_next c_next (λ e. pos (sym given_next ∙ e))
      ∙ ap (λ q. record (given ((given b).next)) { prev = q }) given_prev
      ∙ ap (λ (k : BufferBlock). record k { prev = c })
          (ap given given_next
            ∙ given_elsewhere ((blocks b).next) (λ e. b_next (sym e ∙ sym given_next)))

  merged_elsewhere : (q : ℕ) → q ≢ b → q ≢ c → q ≢ (blocks b).next → join_block given b q ≡ blocks q
  merged_elsewhere q ne ne' ne'' =
      ap (λ k. k q) joined
      ∙ join_prev_ne given b b_c b_next c_next q (λ e. ne' (e ∙ given_prev))
          (λ e. ne'' (e ∙ given_next))
      ∙ given_elsewhere q ne

  given_size : (given b).size + b ≡ ptr + n
  given_size = freed_size blocks owners stop b ptr n c ((blocks c).next) xs bounded tail

  pub merged-IsChain :
      IsChain (join_block given b) owners stop prev p (vacant c (m + (ptr + n - b)) ∷ xs)
  merged-IsChain = (
    chain.0,
    chain.1,
    omega (arith, order, tail.2),
    ap BufferBlock.prev merged_prev ∙ chain.3,
    (
      ap BufferBlock.free merged_prev ∙ chain.4.0,
      omega (
        arith,
        ap BufferBlock.size merged_prev,
        given_size,
        chain.4,
        tail.4,
        bounded,
        chain_end blocks owners stop b ((blocks b).next) xs tail.5,
      ),
      omega (arith, chain.4.2, tail.4),
    ),
    subst (λ q. IsChain (join_block given b) owners stop c q xs)
        (sym (ap BufferBlock.next merged_prev))
        (IsChain-relink blocks (join_block given b) owners owners stop b c ((blocks b).next) xs
          (λ q gt.
            merged_elsewhere q (omega (arith, tail.2)) (omega (arith, order, tail.2))
              (λ e. elim beyond [ inl z ↦ omega arith | inr l ↦ omega arith ]))
          (λ q ge. refl) merged_next tail.5),
  )

  pub merged_below : (q : ℕ) → q < c → q ≢ 0 → join_block given b q ≡ blocks q
  merged_below q lt pos =
      merged_elsewhere q (omega (arith, order)) (omega arith)
        (λ e. elim beyond [ inl z ↦ pos (e ∙ z) | inr l ↦ omega (arith, order, tail.2) ])
