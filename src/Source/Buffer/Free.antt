-- ===== src/Source/Buffer/Free.antt =====
-- The block that `buffer_release` marks as free, without a free block before it.
use c_base.Base.{
  ℕ, ◌+◌, ◌-◌, ◌^◌, ◌≤◌, ◌<◌, ◌≡◌, ◌≢◌, refl, ap, sym, ◌∙◌, ◌⊎◌, inl, inr, List, [], ◌∷◌, true,
  arith,
}
use mathlib.Core.Path.{subst}
use c_base.Base.Memory.{write_self, write_ne}
use c_base.Base.Word.{add_size, sub_size}
use c_base.Source.Buffer.{BufferBlock, join_block, free_block}
use c_base.Source.Buffer.Join.{IsIdle, join_block_none}
use c_base.Source.Buffer.Chain.{
  Node, vacant, taken, limit, IsChain, chain_end, IsChain-next, IsChain-same, IsOccupied,
}

-- `block->free = true; block->size = ...` for a block that a node says is reserved.
module _ (blocks : ℕ → BufferBlock) (owners : ℕ → ℕ) (stop b ptr n prev p : ℕ) (xs : List Node)
    (bounded : stop < 2 ^ 63) (chain : IsChain blocks owners stop prev p (taken b ptr n ∷ xs)) where
  abbrev freed : ℕ → BufferBlock
  freed = free_block blocks b ptr

  abbrev pub freed_block : BufferBlock
  freed_block = record (blocks b) { free = true; size = sub_size (add_size ptr (blocks b).size) b }

  rest : IsChain blocks owners stop b ((blocks b).next) xs
  rest = chain.5

  end : limit xs stop ≤ stop
  end = chain_end blocks owners stop b ((blocks b).next) xs rest

  pub freed_here : freed b ≡ freed_block
  freed_here = write_self blocks b freed_block

  pub freed_elsewhere : (q : ℕ) → q ≢ b → freed q ≡ blocks q
  freed_elsewhere q ne = write_ne blocks b q freed_block ne

  pub freed_size : (freed b).size + b ≡ ptr + n
  freed_size = omega (arith, ap BufferBlock.size freed_here, chain.4, end, bounded)

  pub next_case : ((blocks b).next ≡ 0) ⊎ ((blocks b).next ≡ limit xs stop)
  next_case = IsChain-next blocks owners stop b ((blocks b).next) xs rest

  pub next_elsewhere : b ≢ (blocks b).next
  next_elsewhere e = elim next_case [
    | inl z ↦ omega (arith, chain.1)
    | inr l ↦ omega (arith, chain.2)
  ]

  pub IsIdle-next : IsOccupied xs → IsIdle freed ((freed b).next)
  IsIdle-next occupied = rw (ap BufferBlock.next freed_here) (go xs rest occupied)
    where
      go :
          (ys : List Node)
          → IsChain blocks owners stop b ((blocks b).next) ys
          → IsOccupied ys
          → IsIdle freed ((blocks b).next)
      go [] c o = inl c
      go (vacant d k ∷ ys) c o = elim o [ ]
      go (taken d q m ∷ ys) c o = inr (
          ap BufferBlock.free (freed_elsewhere ((blocks b).next) (λ e. next_elsewhere (sym e)))
          ∙ ap (λ a. (blocks a).free) c.0
          ∙ c.4.0)

  -- Without a free neighbour, the block becomes free, and nothing else changes.
  pub alone : prev < b → IsIdle blocks prev → IsOccupied xs → join_block freed b ≡ freed
  alone before idle occupied =
      join_block_none freed b
        (subst (IsIdle freed) (sym (ap BufferBlock.prev freed_here ∙ chain.3)) idle_prev)
        (IsIdle-next occupied)
    where
      idle_prev : IsIdle freed prev
      idle_prev = elim idle [
        | inl z ↦ inl z
        | inr f ↦ inr (ap BufferBlock.free (freed_elsewhere prev (omega arith)) ∙ f)
      ]

  pub alone-IsChain :
      prev < b
      → IsIdle blocks prev
      → IsOccupied xs
      → IsChain (join_block freed b) owners stop prev p (vacant b (ptr + n - b) ∷ xs)
  alone-IsChain before idle occupied =
      subst (λ m. IsChain m owners stop prev p (vacant b (ptr + n - b) ∷ xs))
        (sym (alone before idle occupied))
        (
          chain.0,
          chain.1,
          chain.2,
          ap BufferBlock.prev freed_here ∙ chain.3,
          (
            ap BufferBlock.free freed_here,
            omega (arith, freed_size, chain.4),
            omega (arith, chain.4),
          ),
          subst (λ q. IsChain freed owners stop b q xs) (sym (ap BufferBlock.next freed_here))
              (IsChain-same blocks freed owners owners stop (limit xs stop) b ((blocks b).next) xs
                (λ q ge. freed_elsewhere q (omega (arith, chain.2))) (λ q ge. refl) (omega arith)
                rest),
        )

  pub alone_elsewhere :
      prev < b
      → IsIdle blocks prev
      → IsOccupied xs
      → (q : ℕ) → q < b
      → join_block freed b q ≡ blocks q
  alone_elsewhere before idle occupied q lt =
      rw (alone before idle occupied) (freed_elsewhere q (omega arith))
