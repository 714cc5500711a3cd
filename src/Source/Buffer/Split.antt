-- ===== src/Source/Buffer/Split.antt =====
-- What `reserve_in` makes of the list of nodes: the block that it takes, and the rest of its space.
use c_base.Base.{
  ℕ, ◌+◌, ◌-◌, ◌^◌, ◌≤◌, ◌<◌, ◌≡◌, ◌≢◌, refl, ap, sym, ◌∙◌, ◌⊎◌, inl, inr, List, [], ◌∷◌, true,
  false, arith, ltb, if◌then◌else◌, ◌==◌, dec_lt, lt→ltb, le→ltb, eq→==,
}
use mathlib.Core.Path.{subst}
use c_base.Base.Memory.{write, write_self, write_ne}
use c_base.Base.Word.{add_size, sub_size, ptr_size}
use c_base.Source.Buffer.{BufferBlock, BufferAllocCtx, take_block, add_block, rest_size, reserve_in}
use c_base.Source.Buffer.Chain.{
  Node, vacant, taken, limit, IsChain, IsChain-next, IsChain-same, IsChain-relink, chain_end,
  take_node,
}
use c_base.Source.Buffer.Links.{add_block_self, add_block_new, add_block_next, add_block_ne}

-- The nodes are `ys` in the state `t`, which has what `blocks` and `owners` have below `b`.
abbrev pub Taken : (ℕ → BufferBlock) → (ℕ → ℕ) → ℕ → BufferAllocCtx → ℕ → ℕ → ℕ → List Node → Type 0
Taken blocks owners stop t b prev p ys =
    IsChain t.blocks t.owners stop prev p ys
    × ((q : ℕ) → q < b → q ≢ 0 → t.blocks q ≡ blocks q)
    × ((q : ℕ) → q < b → t.owners q ≡ owners q)

module _ (s : BufferAllocCtx) (stop ptr b size : ℕ) (end : stop ≡ s.buffer + s.capacity)
    (bounded : stop < 2 ^ 63) where
  abbrev after : BufferAllocCtx
  after = reserve_in s ptr b size

  -- the end of the space that may be left over
  abbrev old_next_start : ℕ
  old_next_start =
      let next = (s.blocks b).next in if next == 0 then add_size s.buffer s.capacity else next

  old_next_start-limit :
      (xs : List Node)
      → IsChain s.blocks s.owners stop b ((s.blocks b).next) xs
      → old_next_start ≡ limit xs stop
  old_next_start-limit [] c = rw (c, end) (omega (arith, bounded, end))
  old_next_start-limit (x ∷ xs) (at, pos, _, _, _, _) = ground arith

  next_elsewhere :
      (xs : List Node)
      → IsChain s.blocks s.owners stop b ((s.blocks b).next) xs
      → 0 < b
      → b < ptr
      → ptr + size + 32 ≤ limit xs stop
      → (b ≢ (s.blocks b).next) × (ptr + size ≢ (s.blocks b).next)
  next_elsewhere [] c pos lt room = (λ e. omega arith, λ e. omega arith)
  next_elsewhere (x ∷ xs) (at, _, _, _, _, _) pos lt room = (λ e. omega arith, λ e. omega arith)

  module _ (xs : List Node) (n prev : ℕ)
      (chain : IsChain s.blocks s.owners stop prev b (vacant b n ∷ xs)) (behind : b + 40 ≤ ptr)
      (within : ptr + size ≤ limit xs stop) where
    rest : IsChain s.blocks s.owners stop b ((s.blocks b).next) xs
    rest = chain.5

    low : limit xs stop < 2 ^ 63
    low = omega (arith, chain_end s.blocks s.owners stop b ((s.blocks b).next) xs rest, bounded)

    left_over : ℕ
    left_over = rest_size s ((s.blocks b).next) (add_size ptr size)

    left_over_lem : left_over ≡ sub_size (sub_size (limit xs stop) (ptr + size)) 32
    unfolding left_over
    left_over_lem =
        ap (λ l. sub_size (sub_size l (add_size ptr size)) 32) (old_next_start-limit xs rest)
        ∙ ap (λ n. sub_size (sub_size (limit xs stop) n) 32) (omega (arith, low))

    none_left : limit xs stop < ptr + size + 32 → ltb left_over (2 ^ 63) ≡ false
    none_left h =
        rw left_over_lem (
          le→ltb (sub_size (sub_size (limit xs stop) (ptr + size)) 32) (2 ^ 63)
            (omega (arith, low)))

    some_left :
        ptr + size + 32 ≤ limit xs stop
        → (ltb left_over (2 ^ 63) ≡ true) × (left_over + ptr + size + 32 ≡ limit xs stop)
    some_left h = rw left_over_lem (
      lt→ltb (sub_size (sub_size (limit xs stop) (ptr + size)) 32) (2 ^ 63) (omega (arith, low)),
      omega (arith, low),
    )

    owner_kept : (q : ℕ) → ptr - 8 ≢ q → after.owners q ≡ s.owners q
    unfolding reserve_in
    owner_kept q ne = write_ne s.owners (sub_size ptr ptr_size) q b (λ e. ne (omega (arith, low)))

    owner_made : after.owners (ptr - 8) ≡ b
    unfolding reserve_in
    owner_made =
        ap (write s.owners (sub_size ptr ptr_size) b) (omega (arith, low))
        ∙ write_self s.owners (sub_size ptr ptr_size) b

    blocks_whole : limit xs stop < ptr + size + 32 → after.blocks ≡ take_block s.blocks b size
    unfolding reserve_in left_over
    blocks_whole h =
        ap
          (λ t.
            if t
            then add_block (take_block s.blocks b size) b (add_size ptr size) left_over
            else take_block s.blocks b size)
          (none_left h)

    blocks_split :
        ptr + size + 32 ≤ limit xs stop
        → after.blocks ≡ add_block (take_block s.blocks b size) b (ptr + size) left_over
    unfolding reserve_in left_over
    blocks_split h =
        ap
          (λ t.
            if t
            then add_block (take_block s.blocks b size) b (add_size ptr size) left_over
            else take_block s.blocks b size)
          (some_left h).0
        ∙ ap (λ n. add_block (take_block s.blocks b size) b n left_over) (omega (arith, low))

    whole_elsewhere :
        limit xs stop < ptr + size + 32 → (q : ℕ) → q ≢ b → after.blocks q ≡ s.blocks q
    whole_elsewhere h q ne =
        ap (λ m. m q) (blocks_whole h)
        ∙ write_ne s.blocks b q (record (s.blocks b) { size = size; free = false }) ne

    whole_here :
        limit xs stop < ptr + size + 32
        → after.blocks b ≡ record (s.blocks b) { size = size; free = false }
    whole_here h =
        ap (λ m. m b) (blocks_whole h)
        ∙ write_self s.blocks b (record (s.blocks b) { size = size; free = false })

    take_whole :
        limit xs stop < ptr + size + 32
        → IsChain after.blocks after.owners stop prev b (taken b ptr size ∷ xs)
    take_whole h = (
      refl,
      chain.1,
      chain.2,
      ap BufferBlock.prev (whole_here h) ∙ chain.3,
      (
        ap BufferBlock.free (whole_here h),
        ap BufferBlock.size (whole_here h),
        owner_made,
        behind,
        within,
      ),
      subst (λ n. IsChain after.blocks after.owners stop b n xs)
          (sym (ap BufferBlock.next (whole_here h)))
          (IsChain-same s.blocks after.blocks s.owners after.owners stop (limit xs stop) b
            ((s.blocks b).next) xs (λ q ge. whole_elsewhere h q (omega (arith, chain.2)))
            (λ q ge. owner_kept q (omega arith)) (omega arith) rest),
    )

    module _ (room : ptr + size + 32 ≤ limit xs stop) where
      apart : (b ≢ (s.blocks b).next) × (ptr + size ≢ (s.blocks b).next)
      apart = next_elsewhere xs rest chain.1 (omega arith) room

      taken_here : take_block s.blocks b size b ≡ record (s.blocks b) { size = size; free = false }
      taken_here = write_self s.blocks b (record (s.blocks b) { size = size; free = false })

      taken_elsewhere : (q : ℕ) → q ≢ b → take_block s.blocks b size q ≡ s.blocks q
      taken_elsewhere q ne =
          write_ne s.blocks b q (record (s.blocks b) { size = size; free = false }) ne

      next_kept : (take_block s.blocks b size b).next ≡ (s.blocks b).next
      next_kept = ap BufferBlock.next taken_here

      split_here :
          after.blocks b ≡ record (s.blocks b) { size = size; free = false; next = ptr + size }
      split_here =
          ap (λ m. m b) (blocks_split room)
          ∙ add_block_self (take_block s.blocks b size) b (ptr + size) left_over (omega arith)
              (rw next_kept apart.0)
          ∙ ap (λ (c : BufferBlock). record c { next = ptr + size }) taken_here

      split_new :
          after.blocks (ptr + size)
          ≡ record { size = left_over; free = true; next = (s.blocks b).next; prev = b }
      split_new =
          ap (λ m. m (ptr + size)) (blocks_split room)
          ∙ add_block_new (take_block s.blocks b size) b (ptr + size) left_over (omega arith)
              (rw next_kept apart.1)
          ∙ ap (λ n. record { size = left_over; free = true; next = n; prev = b }) next_kept

      split_next :
          (s.blocks b).next ≢ 0
          → after.blocks ((s.blocks b).next)
            ≡ record (s.blocks ((s.blocks b).next)) { prev = ptr + size }
      split_next ne =
          ap (λ m. m ((s.blocks b).next)) (blocks_split room)
          ∙ ap (add_block (take_block s.blocks b size) b (ptr + size) left_over) (sym next_kept)
          ∙ add_block_next (take_block s.blocks b size) b (ptr + size) left_over
              (rw next_kept apart.0) (rw next_kept apart.1) (rw next_kept ne)
          ∙ ap (λ (c : BufferBlock). record c { prev = ptr + size })
              (ap (take_block s.blocks b size) next_kept
                ∙ taken_elsewhere ((s.blocks b).next) (λ e. apart.0 (sym e)))

      next_end : ((s.blocks b).next ≡ 0) ⊎ ((s.blocks b).next ≡ limit xs stop)
      next_end = IsChain-next s.blocks s.owners stop b ((s.blocks b).next) xs rest

      split_elsewhere :
          (q : ℕ) → (q < b) ⊎ (limit xs stop < q) → q ≢ 0 → after.blocks q ≡ s.blocks q
      split_elsewhere q far pos =
          ap (λ m. m q) (blocks_split room)
          ∙ add_block_ne (take_block s.blocks b size) b (ptr + size) left_over q
              (omega (arith, far)) (omega (arith, far))
              (rw next_kept (λ e. elim next_end [
                | inl z ↦ pos (e ∙ z)
                | inr l ↦ omega (arith, far, l, e, chain.2)
              ]))
          ∙ taken_elsewhere q (omega (arith, far))

      take_split :
          IsChain after.blocks after.owners stop prev b
            (taken b ptr size ∷ vacant (ptr + size) (limit xs stop - (ptr + size) - 32) ∷ xs)
      take_split = (
        refl,
        chain.1,
        omega (arith, behind),
        ap BufferBlock.prev split_here ∙ chain.3,
        (
          ap BufferBlock.free split_here,
          ap BufferBlock.size split_here,
          owner_made,
          behind,
          omega arith,
        ),
        (
          ap BufferBlock.next split_here,
          omega (arith, behind),
          room,
          ap BufferBlock.prev split_new,
          (
            ap BufferBlock.free split_new,
            ap BufferBlock.size split_new ∙ omega (arith, (some_left room).1),
            omega arith,
          ),
          subst (λ n. IsChain after.blocks after.owners stop (ptr + size) n xs)
              (sym (ap BufferBlock.next split_new))
              (IsChain-relink s.blocks after.blocks s.owners after.owners stop b (ptr + size)
                ((s.blocks b).next) xs (λ q gt. split_elsewhere q (inr gt) (omega arith))
                (λ q ge. owner_kept q (omega arith)) split_next rest),
        ),
      )

    -- the block and what follows it
    pub take_head :
        Taken s.blocks s.owners stop after b prev b (take_node stop b ptr size (vacant b n ∷ xs))
    take_head = elim (dec_lt (limit xs stop) (ptr + size + 32)) [
      | yes h ↦
          rw (eq→== b b refl, lt→ltb (limit xs stop) (ptr + size + 32) h)
            (
              take_whole h,
              λ q lt pos. whole_elsewhere h q (omega arith),
              λ q lt. owner_kept q (omega arith),
            )
      | no h ↦
          rw (eq→== b b refl, le→ltb (limit xs stop) (ptr + size + 32) (omega arith))
            (
              take_split (omega arith),
              λ q lt pos. split_elsewhere (omega arith) q (inl lt) pos,
              λ q lt. owner_kept q (omega arith),
            )
    ]
