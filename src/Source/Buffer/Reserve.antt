-- ===== src/Source/Buffer/Reserve.antt =====
-- `buffer_reserve`: the block that it finds and what becomes of the list of nodes.
use c_base.Base.{
  ℕ, suc, ◌+◌, ◌%◌, ◌^◌, ◌≤◌, ◌<◌, ◌≡◌, refl, ap, ◌∙◌, inl, inr, List, [], ◌∷◌, false, arith, ◌==◌,
  length, Option, none, some,
}
use c_base.Base.Run.{ok, Returns}
use c_base.Base.Word.{word_mod}
use c_base.Align.{check_alignment}
use c_base.Align.Bounds.{IsAlignment}
use c_base.Align.Power.{check_alignment_iff}
use c_base.Source.Buffer.{BufferBlock, BufferAllocCtx, fit_loop, reserve_in, buffer_reserve}
use c_base.Source.Buffer.Chain.{
  Node, vacant, address, limit, IsChain, IsChain-length, IsChain-later, HasRoom, take_node,
  IsBuffer,
}
use c_base.Source.Stats.{stattrack_reserve}
use c_base.Source.Buffer.Fit.{IsFull, Found, fit_loop-Found}
use c_base.Source.Buffer.Split.{Taken, take_head}

pub unequal : (a b : ℕ) → a < b → (a == b) ≡ false
unequal a b h = ground arith

-- The block with room lies behind the nodes before it.
HasRoom-limit :
    (blocks : ℕ → BufferBlock) (owners : ℕ → ℕ) (stop b ptr size prev p : ℕ) (xs : List Node)
    → IsChain blocks owners stop prev p xs
    → HasRoom b ptr size xs
    → limit xs stop ≤ b
HasRoom-limit blocks owners stop b ptr size prev p [] c h = elim h [ ]
HasRoom-limit blocks owners stop b ptr size prev p (x ∷ xs) c (inl (_, e, _, _)) =
    omega (arith, ap address e)
HasRoom-limit blocks owners stop b ptr size prev p (x ∷ xs) (at, pos, room, back, node, rest)
      (inr h) =
    omega (
      arith,
      room,
      HasRoom-limit blocks owners stop b ptr size (address x) ((blocks (address x)).next) xs rest h,
    )

limit-take_node :
    (stop b ptr size : ℕ) (xs : List Node)
    → limit (take_node stop b ptr size xs) stop ≡ limit xs stop
limit-take_node stop b ptr size [] = refl
limit-take_node stop b ptr size (x ∷ xs) = ground arith

module _ (s : BufferAllocCtx) (stop ptr b size : ℕ) (end : stop ≡ s.buffer + s.capacity)
    (bounded : stop < 2 ^ 63) where
  abbrev after : BufferAllocCtx
  after = reserve_in s ptr b size

  -- A node before the block stays.
  take_later :
      (prev p : ℕ) (x : Node) (xs : List Node)
      → IsChain s.blocks s.owners stop prev p (x ∷ xs)
      → HasRoom b ptr size xs
      → Taken s.blocks s.owners stop after b
          (address x)
          ((s.blocks (address x)).next)
          (take_node stop b ptr size xs)
      → Taken s.blocks s.owners stop after b prev p (take_node stop b ptr size (x ∷ xs))
  take_later prev p x xs (at, pos, room, back, node, rest) h (chain, same, same_owners) =
      rw (unequal (address x) b (omega (arith, room, beyond))) (
        IsChain-later s.blocks after.blocks s.owners after.owners stop prev p x xs
            (take_node stop b ptr size xs) (at, pos, room, back, node, rest)
            (limit-take_node stop b ptr size xs) kept
            (λ q ge lt. same_owners q (omega (arith, beyond))) chain,
        same,
        same_owners,
      )
    where
      beyond : limit xs stop ≤ b
      beyond =
          HasRoom-limit s.blocks s.owners stop b ptr size (address x) ((s.blocks (address x)).next)
            xs rest h

      kept : after.blocks (address x) ≡ s.blocks (address x)
      kept = same (address x) (omega (arith, room, beyond)) (omega arith)

  take_chain :
      (prev p : ℕ) (xs : List Node)
      → IsChain s.blocks s.owners stop prev p xs
      → HasRoom b ptr size xs
      → Taken s.blocks s.owners stop after b prev p (take_node stop b ptr size xs)
  take_chain prev p [] c h = elim h [ ]
  take_chain prev p (x ∷ xs) c (inl (n, e, behind, within)) =
      rw (e, begins)
        (take_head s stop ptr b size end bounded xs n prev here behind
          (omega (arith, within, here.4)))
    where
      begins : p ≡ b
      begins = c.0 ∙ ap address e

      here : IsChain s.blocks s.owners stop prev b (vacant b n ∷ xs)
      here = rw begins at (rw e at c)
  take_chain prev p (x ∷ xs) c (inr h) =
      take_later prev p x xs c h (take_chain (address x) ((s.blocks (address x)).next) xs c.5 h)

-- A null result leaves the source alone, and means that no free block is large enough. Any other
-- result is an aligned pointer into a free block with room for the request; that block is taken, and
-- what is left behind the request is a free block of that size if it has room for a header. The
-- source keeps its buffer.
abbrev pub Reserved : BufferAllocCtx → List Node → ℕ → ℕ → Option ℕ × BufferAllocCtx → Type 0
Reserved s xs size alignment (none, t) = (t ≡ s) × IsFull size alignment xs
Reserved s xs size alignment (some p, t) =
    (b : ℕ) × (p % alignment ≡ 0)
    × HasRoom b p size xs
    × IsBuffer t (take_node (s.buffer + s.capacity) b p size xs)
    × (t.stats ≡ stattrack_reserve s.stats size)
    × (t.buffer ≡ s.buffer)
    × (t.capacity ≡ s.capacity)

few_nodes : (s : BufferAllocCtx) (xs : List Node) → IsBuffer s xs → length xs < suc s.capacity
few_nodes s [] v = omega arith
few_nodes s (x ∷ xs) v = omega (
  arith,
  v.starts,
  v.chain.0,
  IsChain-length s.blocks s.owners (s.buffer + s.capacity) 0 s.first x xs v.chain,
)

-- For a power of two as the alignment, in a buffer in the lower half of the address space less the
-- alignment, `buffer_reserve` on a well-formed list of blocks does not fault, and its loop ends. It
-- returns null and changes nothing if no free block is large enough; otherwise it returns an aligned
-- pointer into a free block that has room for it, and the list is well formed again with that block
-- taken. If there is room for a header between what it hands out and the next block, or the end of the
-- buffer, a free block begins there, whose size is all that room less the header. The
-- bytes are counted, and the source keeps its buffer.
pub buffer_reserve-Reserved :
    (s : BufferAllocCtx) (xs : List Node) (size alignment flags : ℕ)
    → IsBuffer s xs
    → IsAlignment alignment
    → (s.buffer + s.capacity) + (s.buffer + s.capacity) + 40 + alignment ≤ word_mod
    → Returns (buffer_reserve s size alignment flags) (Reserved s xs size alignment)
unfolding buffer_reserve reserve_in
buffer_reserve-Reserved s xs size alignment flags v a sane = go (
    fit_loop-Found s.blocks s.owners (s.buffer + s.capacity) size alignment a sane (suc s.capacity)
      0 s.first xs v.chain (few_nodes s xs v))
  where
    accepted : check_alignment alignment ≡ ok tt
    accepted = (check_alignment_iff alignment (omega arith)).1 a

    go :
        Returns
          (fit_loop (suc s.capacity) s.blocks s.first size alignment)
          (Found size alignment xs)
        → Returns (buffer_reserve s size alignment flags) (Reserved s xs size alignment)
    go (none, run, full) = ((none, s), rw (accepted, run) refl, (refl, full))
    go (some (p, b), run, (aligned, room)) = (
      (some p, reserve_in s p b size),
      rw (accepted, run) refl,
      (
        b,
        aligned,
        room,
        record {
          chain =
              (take_chain s (s.buffer + s.capacity) p b size refl (omega arith) 0 s.first xs v.chain
                room).0;
          starts = v.starts;
        },
        refl,
        refl,
        refl,
      ),
    )
