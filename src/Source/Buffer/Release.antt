-- ===== src/Source/Buffer/Release.antt =====
-- The first block of a buffer, and `buffer_release` on a list of blocks.
use c_base.Base.{
  ℕ, ◌+◌, ◌-◌, ◌^◌, ◌≤◌, ◌<◌, ◌≡◌, ◌≢◌, refl, ap, sym, ◌∙◌, inl, inr, List, [], ◌∷◌, true, false,
  arith, if◌then◌else◌, ◌==◌, eq→==,
}
use mathlib.Core.Path.{subst}
use c_base.Base.Memory.{write, write_self}
use c_base.Base.Run.{ok, Returns}
use c_base.Base.Word.{sub_size, word_mod, ptr_size}
use c_base.Source.Stats.{stattrack_release}
use c_base.Source.Buffer.{
  BufferBlock, BufferAllocCtx, buffer_ctx, buffer_release, join_block, free_block,
}
use c_base.Source.Buffer.Reserve.{unequal}
use c_base.Source.Buffer.Join.{IsIdle}
use c_base.Source.Buffer.Chain.{
  Node, vacant, taken, address, limit, IsChain, chain_end, IsChain-later, IsHeld, give_node,
  IsBuffer,
}
use c_base.Source.Buffer.Free.{alone-IsChain, alone_elsewhere}
use c_base.Source.Buffer.Merge.{merged-IsChain, merged_below}

-- What `buffer_memory_source_create` writes into a buffer of more than a header, an object in memory,
-- is a list of one free block.
pub buffer_ctx-IsBuffer :
    (memory : ℕ → BufferBlock) (pointers : ℕ → ℕ) (buffer buffer_size : ℕ)
    → 0 < buffer
    → 32 < buffer_size
    → buffer + buffer_size < word_mod
    → IsBuffer
        (buffer_ctx memory pointers buffer buffer_size)
        (vacant buffer (buffer_size - 32) ∷ [])
unfolding buffer_ctx
buffer_ctx-IsBuffer memory pointers buffer buffer_size pos room fits = record {
  chain = (
    refl,
    pos,
    omega arith,
    ap BufferBlock.prev here,
    (ap BufferBlock.free here, ap BufferBlock.size here ∙ omega arith, omega arith),
    ap BufferBlock.next here,
  );
  starts = refl;
}
  where
    first : BufferBlock
    first = record { size = sub_size buffer_size 32; free = true; next = 0; prev = 0 }

    here : write memory buffer first buffer ≡ first
    here = write_self memory buffer first

-- The nodes are `ys` in `blocks'`, which has what `blocks` has below `lo`.
abbrev Given : (ℕ → BufferBlock) → (ℕ → BufferBlock) → (ℕ → ℕ) → ℕ → ℕ → ℕ → ℕ → List Node → Type 0
Given blocks blocks' owners stop lo prev p ys =
    IsChain blocks' owners stop prev p ys
    × (limit ys stop ≡ lo)
    × ((q : ℕ) → q < lo → q ≢ 0 → blocks' q ≡ blocks q)

module _ (blocks : ℕ → BufferBlock) (owners : ℕ → ℕ) (stop b ptr n : ℕ)
    (bounded : stop < 2 ^ 63) where
  abbrev after : ℕ → BufferBlock
  after = join_block (free_block blocks b ptr) b

  held_limit :
      (prev p : ℕ) (xs : List Node)
      → IsChain blocks owners stop prev p xs
      → IsHeld b ptr n xs
      → limit xs stop ≤ b
  held_limit prev p [] c h = elim h [ ]
  held_limit prev p (x ∷ xs) c (inl (e, _)) = omega (arith, ap address e)
  held_limit prev p (x ∷ xs) c (inr h) =
      omega (arith, c.2, held_limit (address x) ((blocks (address x)).next) xs c.5 h)

  -- A node before those that change stays.
  give_later :
      (prev p : ℕ) (x : Node) (xs ys : List Node)
      → IsChain blocks owners stop prev p (x ∷ xs)
      → Given blocks after owners stop (limit xs stop) (address x) ((blocks (address x)).next) ys
      → Given blocks after owners stop (address x) prev p (x ∷ ys)
  give_later prev p x xs ys c (chain, e, same) = (
    IsChain-later blocks after owners owners stop prev p x xs ys c e
        (same (address x) (omega (arith, c.2)) (omega (arith, c.1))) (λ q ge lt. refl) chain,
    refl,
    λ q lt pos. same q (omega (arith, c.2)) pos,
  )

  give_chain :
      (prev p : ℕ) (xs : List Node)
      → IsChain blocks owners stop prev p xs
      → IsHeld b ptr n xs
      → prev < limit xs stop
      → (limit xs stop ≡ b → IsIdle blocks prev)
      → Given blocks after owners stop (limit xs stop) prev p (give_node b xs)
  give_chain prev p [] c h before idle = elim h [ ]
  give_chain prev p (taken c q m ∷ xs) chain (inl (e, o)) before idle =
      subst (λ x. Given blocks after owners stop (address x) prev p (give_node b (x ∷ xs))) (sym e)
        (rw (eq→== b b refl) (
          alone-IsChain blocks owners stop b ptr n prev p xs bounded begins
              (omega (arith, before, is)) (idle is) o,
          refl,
          λ k lt pos.
              alone_elsewhere blocks owners stop b ptr n prev p xs bounded begins
                (omega (arith, before, is)) (idle is) o k lt,
        ))
    where
      is : c ≡ b
      is = ap address e

      begins : IsChain blocks owners stop prev p (taken b ptr n ∷ xs)
      begins = subst (λ x. IsChain blocks owners stop prev p (x ∷ xs)) e chain
  give_chain prev p (taken c q m ∷ xs) chain (inr h) before idle =
      let beyond = held_limit c ((blocks c).next) xs chain.5 h in
      rw (unequal c b (omega (arith, chain.2, beyond))) (
        give_later prev p (taken c q m) xs (give_node b xs) chain (
          give_chain c ((blocks c).next) xs chain.5 h (omega (arith, chain.2))
            (λ _. inr chain.4.0)))
  give_chain prev p (vacant c m_old ∷ []) chain (inl (e, o)) before idle = absurd (cc e)
  give_chain prev p (vacant c m_old ∷ []) chain (inr h) before idle = elim h [ ]
  give_chain prev p (vacant c m_old ∷ vacant d k_old ∷ xs) chain (inl (e, o)) before idle =
      elim o [ ]
  give_chain prev p (vacant c m_old ∷ vacant d k_old ∷ xs) chain (inr (inl (e, o))) before idle =
      absurd (cc e)
  give_chain prev p (vacant c m_old ∷ vacant d k_old ∷ xs) chain (inr (inr h)) before idle =
      give_later prev p (vacant c m_old) (vacant d k_old ∷ xs) (give_node b (vacant d k_old ∷ xs))
        chain
        (give_chain c ((blocks c).next) (vacant d k_old ∷ xs) chain.5 (inr h)
          (omega (arith, chain.2))
          (λ is.
            absurd (omega (arith, is, chain.5.2, held_limit d ((blocks d).next) xs chain.5.5 h))))
  give_chain prev p (vacant c m_old ∷ taken d q m ∷ xs) chain (inl (e, o)) before idle =
      absurd (cc e)
  give_chain prev p (vacant c m_old ∷ taken d q m ∷ xs) chain (inr (inl (e, o))) before idle =
      subst (λ x. Given blocks after owners stop c prev p (give_node b (vacant c m_old ∷ x ∷ xs)))
        (sym e)
        (rw (eq→== b b refl) (
          merged-IsChain blocks owners stop c m_old b ptr n prev p xs bounded o begins,
          refl,
          merged_below blocks owners stop c m_old b ptr n prev p xs bounded o begins,
        ))
    where
      begins : IsChain blocks owners stop prev p (vacant c m_old ∷ taken b ptr n ∷ xs)
      begins = subst (λ x. IsChain blocks owners stop prev p (vacant c m_old ∷ x ∷ xs)) e chain
  give_chain prev p (vacant c m_old ∷ taken d q m ∷ xs) chain (inr (inr h)) before idle =
      let beyond = held_limit d ((blocks d).next) xs chain.5.5 h in
      let rest =
        give_chain c ((blocks c).next) (taken d q m ∷ xs) chain.5 (inr h) (omega (arith, chain.2))
          (λ is. absurd (omega (arith, is, chain.5.2, beyond))) in
      subst (Given blocks after owners stop c prev p)
        (sym (
          ap
            (λ t.
              if t
              then vacant c (m_old + (q + m - d)) ∷ xs
              else vacant c m_old ∷ give_node b (taken d q m ∷ xs))
            (unequal d b (omega (arith, chain.5.2, beyond)))))
        (give_later prev p (vacant c m_old) (taken d q m ∷ xs) (give_node b (taken d q m ∷ xs))
          chain rest)

held_owner :
    (blocks : ℕ → BufferBlock) (owners : ℕ → ℕ) (stop b ptr n prev p : ℕ) (xs : List Node)
    → IsChain blocks owners stop prev p xs
    → IsHeld b ptr n xs
    → (owners (ptr - 8) ≡ b) × (0 < b) × (b + 40 ≤ ptr) × (ptr ≤ stop)
held_owner blocks owners stop b ptr n prev p [] c h = elim h [ ]
held_owner blocks owners stop b ptr n prev p (x ∷ xs) c (inl (e, _)) = (
  held.4.2,
  held.1,
  held.4.3,
  omega (arith, held.4.4, chain_end blocks owners stop b ((blocks b).next) xs held.5),
)
  where
    held : IsChain blocks owners stop prev p (taken b ptr n ∷ xs)
    held = subst (λ y. IsChain blocks owners stop prev p (y ∷ xs)) e c
held_owner blocks owners stop b ptr n prev p (x ∷ xs) c (inr h) =
    held_owner blocks owners stop b ptr n (address x) ((blocks (address x)).next) xs c.5 h

held_positive :
    (blocks : ℕ → BufferBlock) (owners : ℕ → ℕ) (stop b ptr n prev p : ℕ) (xs : List Node)
    → IsChain blocks owners stop prev p xs
    → IsHeld b ptr n xs
    → 0 < limit xs stop
held_positive blocks owners stop b ptr n prev p [] c h = elim h [ ]
held_positive blocks owners stop b ptr n prev p (x ∷ xs) c h = c.1

nonzero : (p : ℕ) → 0 < p → (p == 0) ≡ false
nonzero p h = ground arith

pub release_run :
    (s : BufferAllocCtx) (b ptr size : ℕ)
    → 0 < ptr
    → s.owners (sub_size ptr ptr_size) ≡ b
    → buffer_release s ptr size
      ≡ ok (record s {
        stats = stattrack_release s.stats size;
        blocks = join_block (free_block s.blocks b ptr) b;
      })
unfolding buffer_release
release_run s b ptr size pos e = rw (nonzero ptr pos, e) refl

-- In a buffer in the lower half of the address space, `buffer_release` of a reserved block that has no
-- free block behind it does not fault. If the block before it is not free, it is free afterwards, with
-- all bytes from its header to the end of what it handed out; otherwise the free block before it has
-- grown by as many bytes and has taken its place. The other blocks keep their sizes, the list is well
-- formed again, the bytes are counted, and the source keeps its buffer.
pub buffer_release-IsBuffer :
    (s : BufferAllocCtx) (b ptr n size : ℕ) (xs : List Node)
    → IsBuffer s xs
    → s.buffer + s.capacity < 2 ^ 63
    → IsHeld b ptr n xs
    → Returns (buffer_release s ptr size) (λ t.
      IsBuffer t (give_node b xs)
      × (t.stats ≡ stattrack_release s.stats size)
      × (t.buffer ≡ s.buffer)
      × (t.capacity ≡ s.capacity))
buffer_release-IsBuffer s b ptr n size xs v bounded held = (
  record s {
    stats = stattrack_release s.stats size;
    blocks = after s.blocks s.owners stop b ptr n bounded;
  },
  release_run s b ptr size (omega (arith, owner))
      (ap s.owners (omega (arith, owner, bounded)) ∙ owner.0),
  (
    record {
      chain =
          (give_chain s.blocks s.owners stop b ptr n bounded 0 s.first xs v.chain held
            (held_positive s.blocks s.owners stop b ptr n 0 s.first xs v.chain held)
            (λ _. inl refl)).0;
      starts = v.starts;
    },
    refl,
    refl,
    refl,
  ),
)
  where
    stop : ℕ
    stop = s.buffer + s.capacity

    owner : (s.owners (ptr - 8) ≡ b) × (0 < b) × (b + 40 ≤ ptr) × (ptr ≤ stop)
    owner = held_owner s.blocks s.owners stop b ptr n 0 s.first xs v.chain held
