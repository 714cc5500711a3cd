-- ===== src/Source/Buffer/Links.antt =====
-- What `add_block` writes: the block, the new one behind it, and the one that follows.
use c_base.Base.{ℕ, ◌≡◌, ◌≢◌, arith, true}
use c_base.Source.Buffer.{BufferBlock, add_block}

module _ (blocks : ℕ → BufferBlock) (b at n : ℕ) where
  pub add_block_self :
      b ≢ at → b ≢ (blocks b).next → add_block blocks b at n b ≡ record (blocks b) { next = at }
  add_block_self ne ne' = ground arith

  pub add_block_new :
      b ≢ at
      → at ≢ (blocks b).next
      → add_block blocks b at n at
        ≡ record { size = n; free = true; next = (blocks b).next; prev = b }
  add_block_new ne ne' = ground arith

  pub add_block_next :
      b ≢ (blocks b).next
      → at ≢ (blocks b).next
      → (blocks b).next ≢ 0
      → add_block blocks b at n ((blocks b).next) ≡ record (blocks ((blocks b).next)) { prev = at }
  add_block_next ne ne' pos = ground arith

  pub add_block_ne :
      (q : ℕ) → q ≢ b → q ≢ at → q ≢ (blocks b).next → add_block blocks b at n q ≡ blocks q
  add_block_ne q ne ne' ne'' = ground arith
