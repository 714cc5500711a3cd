-- ===== src/Source/Buffer/Join.antt =====
-- Which of the two joins of `buffer_release` happen, and what they write.
use c_base.Base.{
  ℕ, ◌≡◌, ◌≢◌, refl, ap, ◌∙◌, ◌⊎◌, inl, inr, true, false, not, ◌&&◌, arith, ◌==◌, eq→==, dec_lt,
}
use c_base.Base.Word.{add_size}
use c_base.Source.Buffer.{BufferBlock, join_block, join_prev, join_next}

-- There is no block at `q` to join with.
abbrev pub IsIdle : (ℕ → BufferBlock) → ℕ → Type 0
IsIdle blocks q = (q ≡ 0) ⊎ ((blocks q).free ≡ false)

pub IsIdle-test :
    (blocks : ℕ → BufferBlock) (q : ℕ) → IsIdle blocks q → (not (q == 0) && (blocks q).free) ≡ false
IsIdle-test blocks q (inl e) = rw (eq→== q 0 e) refl
IsIdle-test blocks q (inr e) = ground (arith, e)

free_test :
    (blocks : ℕ → BufferBlock) (q : ℕ)
    → q ≢ 0
    → (blocks q).free ≡ true
    → (not (q == 0) && (blocks q).free) ≡ true
free_test blocks q pos e = ground (arith, e)

module _ (blocks : ℕ → BufferBlock) (b : ℕ) where
  pub join_block_none :
      IsIdle blocks ((blocks b).prev)
      → IsIdle blocks ((blocks b).next)
      → join_block blocks b ≡ blocks
  unfolding join_block
  join_block_none p n =
      rw (IsIdle-test blocks ((blocks b).prev) p, IsIdle-test blocks ((blocks b).next) n) refl

  pub join_block_next :
      IsIdle blocks ((blocks b).prev)
      → (blocks b).next ≢ 0
      → (blocks ((blocks b).next)).free ≡ true
      → join_block blocks b ≡ join_next blocks b
  unfolding join_block
  join_block_next p pos e =
      rw (IsIdle-test blocks ((blocks b).prev) p, free_test blocks ((blocks b).next) pos e) refl

  module _ (ne : b ≢ (blocks b).prev) (ne' : b ≢ (blocks b).next)
      (apart : (blocks b).prev ≢ (blocks b).next) where
    pub join_prev_prev : join_prev blocks b ((blocks b).prev) ≡ record (blocks ((blocks b).prev)) {
      next = (blocks b).next;
      size = add_size (blocks ((blocks b).prev)).size (blocks b).size;
    }
    join_prev_prev = ground arith

    pub join_prev_next :
        (blocks b).next ≢ 0
        → join_prev blocks b ((blocks b).next)
          ≡ record (blocks ((blocks b).next)) { prev = (blocks b).prev }
    join_prev_next pos = ground arith

    pub join_prev_ne :
        (q : ℕ) → q ≢ (blocks b).prev → q ≢ (blocks b).next → join_prev blocks b q ≡ blocks q
    join_prev_ne q far far' = ground arith

    pub join_block_prev :
        (blocks b).prev ≢ 0
        → (blocks ((blocks b).prev)).free ≡ true
        → IsIdle blocks ((blocks b).next)
        → join_block blocks b ≡ join_prev blocks b
    unfolding join_block
    join_block_prev pos e n = rw (free_test blocks ((blocks b).prev) pos e, still) refl
      where
        next_kept : (join_prev blocks b b).next ≡ (blocks b).next
        next_kept = ap BufferBlock.next (join_prev_ne b ne ne')

        idle : IsIdle (join_prev blocks b) ((blocks b).next)
        idle = elim n [
          | inl z ↦ inl z
          | inr f ↦ elim (dec_lt 0 ((blocks b).next)) [
            | yes lt ↦ inr (ap BufferBlock.free (join_prev_next (omega arith)) ∙ f)
            | no ge ↦ inl (omega arith)
          ]
        ]

        still :
            (not ((join_prev blocks b b).next == 0)
              && (join_prev blocks b ((join_prev blocks b b).next)).free)
            ≡ false
        still = rw next_kept (IsIdle-test (join_prev blocks b) ((blocks b).next) idle)

module _ (blocks : ℕ → BufferBlock) (b : ℕ) where
  pub join_next_size :
      (blocks b).prev ≡ 0
      → b ≢ (blocks b).next
      → join_next blocks b ((blocks b).next) ≡ record (blocks ((blocks b).next)) {
        prev = 0;
        size = add_size (blocks ((blocks b).next)).size (blocks b).size;
      }
  join_next_size none ne = ground (arith, none)
