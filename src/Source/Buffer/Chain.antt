-- ===== src/Source/Buffer/Chain.antt =====
-- The list of blocks in the buffer, as a list of nodes in the order of their addresses.
use c_base.Base.{
  ℕ, suc, ◌+◌, ◌-◌, ◌*◌, ◌≤◌, ◌<◌, ◌≡◌, ◌≢◌, ap, sym, ◌∙◌, List, [], ◌∷◌, true, false, arith,
  length, ltb, if◌then◌else◌, ◌==◌, ◌⊎◌, inl, inr,
}
use mathlib.Core.Path.{subst}
use c_base.Source.Buffer.{BufferBlock, BufferAllocCtx}

-- A free block at an address, with its size, or a reserved one with the pointer that was handed out
-- and its size.
pub data Node : Type 0 where
  vacant : ℕ → ℕ → Node
  taken : ℕ → ℕ → ℕ → Node

abbrev pub address : Node → ℕ
address (vacant b n) = b
address (taken b p n) = b

-- where the next node begins, or the end of the buffer
abbrev pub limit : List Node → ℕ → ℕ
limit [] stop = stop
limit (x ∷ xs) stop = address x

-- The block of a node has what the node says, its size included, and ends at the limit or before. The pointer to
-- the block stands just before what is handed out, behind the block's own header.
abbrev pub IsNode : (ℕ → BufferBlock) → (ℕ → ℕ) → ℕ → Node → Type 0
IsNode blocks owners end (vacant b n) =
    ((blocks b).free ≡ true) × ((blocks b).size ≡ n) × (b + n ≤ end)
IsNode blocks owners end (taken b p n) =
    ((blocks b).free ≡ false)
    × ((blocks b).size ≡ n)
    × (owners (p - 8) ≡ b)
    × (b + 40 ≤ p)
    × (p + n ≤ end)

module _ (blocks : ℕ → BufferBlock) (owners : ℕ → ℕ) (stop : ℕ) where
  -- From `p`, which has `prev` before it, the pointers lead through the nodes and back.
  abbrev pub IsChain : ℕ → ℕ → List Node → Type 0
  IsChain prev p [] = p ≡ 0
  IsChain prev p (x ∷ xs) =
      (p ≡ address x)
      × (0 < address x)
      × (address x + 32 ≤ limit xs stop)
      × ((blocks (address x)).prev ≡ prev)
      × IsNode blocks owners (limit xs stop) x
      × IsChain (address x) ((blocks (address x)).next) xs

  pub IsChain-limit :
      (prev p : ℕ) (x : Node) (xs : List Node) → IsChain prev p (x ∷ xs) → address x + 32 ≤ stop
  IsChain-limit prev p x [] c = c.2
  IsChain-limit prev p x (y ∷ xs) (_, _, room, _, _, rest) =
      omega (arith, room, IsChain-limit (address x) ((blocks (address x)).next) y xs rest)

  -- Nodes have room for their headers, so there are not many.
  pub IsChain-length :
      (prev p : ℕ) (x : Node) (xs : List Node)
      → IsChain prev p (x ∷ xs)
      → address x + 32 * suc (length xs) ≤ stop
  IsChain-length prev p x [] c = omega (arith, c.2)
  IsChain-length prev p x (y ∷ xs) (_, _, room, _, _, rest) =
      omega (arith, room, IsChain-length (address x) ((blocks (address x)).next) y xs rest)

  pub chain_end : (prev p : ℕ) (xs : List Node) → IsChain prev p xs → limit xs stop ≤ stop
  chain_end prev p [] c = omega arith
  chain_end prev p (x ∷ xs) c = omega (arith, IsChain-limit prev p x xs c)

  pub IsChain-next :
      (prev p : ℕ) (xs : List Node) → IsChain prev p xs → (p ≡ 0) ⊎ (p ≡ limit xs stop)
  IsChain-next prev p [] c = inl c
  IsChain-next prev p (x ∷ xs) c = inr c.0

-- A node survives changes elsewhere, and of the links of its block.
pub IsNode-same :
    (blocks blocks' : ℕ → BufferBlock) (owners owners' : ℕ → ℕ) (end : ℕ) (x : Node)
    → (blocks' (address x)).free ≡ (blocks (address x)).free
    → (blocks' (address x)).size ≡ (blocks (address x)).size
    → ((q : ℕ) → address x ≤ q → q < end → owners' q ≡ owners q)
    → address x + 32 ≤ end
    → IsNode blocks owners end x
    → IsNode blocks' owners' end x
IsNode-same blocks blocks' owners owners' end (vacant b n) ef es o room (free, size, within) =
    (ef ∙ free, es ∙ size, within)
IsNode-same blocks blocks' owners owners' end (taken b p n) ef es o room
      (used, size, owner, behind, within) =
    (ef ∙ used, es ∙ size, o (p - 8) (omega arith) (omega arith) ∙ owner, behind, within)

-- The nodes from `lo` on survive changes below.
pub IsChain-same :
    (blocks blocks' : ℕ → BufferBlock) (owners owners' : ℕ → ℕ) (stop lo prev p : ℕ)
    (xs : List Node)
    → ((q : ℕ) → lo ≤ q → blocks' q ≡ blocks q)
    → ((q : ℕ) → lo ≤ q → owners' q ≡ owners q)
    → lo ≤ limit xs stop
    → IsChain blocks owners stop prev p xs
    → IsChain blocks' owners' stop prev p xs
IsChain-same blocks blocks' owners owners' stop lo prev p [] b o h c = c
IsChain-same blocks blocks' owners owners' stop lo prev p (x ∷ xs) b o h
      (at, pos, room, back, node, rest) =
    (
      at,
      pos,
      room,
      ap BufferBlock.prev (b (address x) h) ∙ back,
      IsNode-same blocks blocks' owners owners' (limit xs stop) x
          (ap BufferBlock.free (b (address x) h)) (ap BufferBlock.size (b (address x) h))
          (λ q ge lt. o q (omega arith)) room node,
      subst (λ n. IsChain blocks' owners' stop (address x) n xs)
          (sym (ap BufferBlock.next (b (address x) h)))
          (IsChain-same blocks blocks' owners owners' stop lo (address x)
            ((blocks (address x)).next) xs b o (omega arith) rest),
    )

-- The nodes survive a new `prev` of the first one, and changes below.
pub IsChain-relink :
    (blocks blocks' : ℕ → BufferBlock) (owners owners' : ℕ → ℕ) (stop prev prev' p : ℕ)
    (xs : List Node)
    → ((q : ℕ) → limit xs stop < q → blocks' q ≡ blocks q)
    → ((q : ℕ) → limit xs stop ≤ q → owners' q ≡ owners q)
    → (p ≢ 0 → blocks' p ≡ record (blocks p) { prev = prev' })
    → IsChain blocks owners stop prev p xs
    → IsChain blocks' owners' stop prev' p xs
IsChain-relink blocks blocks' owners owners' stop prev prev' p [] b o first c = c
IsChain-relink blocks blocks' owners owners' stop prev prev' p (x ∷ xs) b o first
      (at, pos, room, back, node, rest) =
    (
      at,
      pos,
      room,
      ap BufferBlock.prev here,
      IsNode-same blocks blocks' owners owners' (limit xs stop) x (ap BufferBlock.free here)
          (ap BufferBlock.size here) (λ q ge lt. o q ge) room node,
      subst (λ n. IsChain blocks' owners' stop (address x) n xs) (sym (ap BufferBlock.next here))
          (IsChain-same blocks blocks' owners owners' stop (limit xs stop) (address x)
            ((blocks (address x)).next) xs (λ q ge. b q (omega arith)) (λ q ge. o q (omega arith))
            (omega arith) rest),
    )
  where
    here : blocks' (address x) ≡ record (blocks (address x)) { prev = prev' }
    here = rw at at (first (omega arith))

-- A node stays before other nodes that begin where its own did.
pub IsChain-later :
    (blocks blocks' : ℕ → BufferBlock) (owners owners' : ℕ → ℕ) (stop prev p : ℕ) (x : Node)
    (xs ys : List Node)
    → IsChain blocks owners stop prev p (x ∷ xs)
    → limit ys stop ≡ limit xs stop
    → blocks' (address x) ≡ blocks (address x)
    → ((q : ℕ) → address x ≤ q → q < limit xs stop → owners' q ≡ owners q)
    → IsChain blocks' owners' stop (address x) ((blocks (address x)).next) ys
    → IsChain blocks' owners' stop prev p (x ∷ ys)
IsChain-later blocks blocks' owners owners' stop prev p x xs ys (here, pos, room, back, node, rest)
      e kept same chain =
    (
      here,
      pos,
      rw e room,
      ap BufferBlock.prev kept ∙ back,
      rw e (
          IsNode-same blocks blocks' owners owners' (limit xs stop) x (ap BufferBlock.free kept)
            (ap BufferBlock.size kept) same room node),
      subst (λ n. IsChain blocks' owners' stop (address x) n ys) (sym (ap BufferBlock.next kept))
          chain,
    )

-- The request fits in a free node at `b`: the pointer to the block fits between its header and what is
-- handed out, which ends within the size of the node.
abbrev pub HasRoom : ℕ → ℕ → ℕ → List Node → Type 0
HasRoom b ptr size [] = ⊥
HasRoom b ptr size (x ∷ xs) =
    ((n : ℕ) × (x ≡ vacant b n) × (b + 40 ≤ ptr) × (ptr + size ≤ b + n)) ⊎ HasRoom b ptr size xs

-- The node at `b` is taken. What is behind the request, up to the limit, is a free node if it has room
-- for a header, and its size is what it has without the header.
abbrev pub take_node : ℕ → ℕ → ℕ → ℕ → List Node → List Node
take_node stop b ptr size [] = []
take_node stop b ptr size (x ∷ xs) =
    if address x == b
    then taken b ptr size
      ∷ (if ltb (limit xs stop) (ptr + size + 32)
          then xs
          else vacant (ptr + size) (limit xs stop - (ptr + size) - 32) ∷ xs)
    else x ∷ take_node stop b ptr size xs

-- The node at `b` is reserved, for `n` bytes at `ptr`, and no free node is behind it.
abbrev pub IsOccupied : List Node → Type 0
IsOccupied [] = Unit
IsOccupied (vacant b n ∷ xs) = ⊥
IsOccupied (taken b p n ∷ xs) = Unit

abbrev pub IsHeld : ℕ → ℕ → ℕ → List Node → Type 0
IsHeld b ptr n [] = ⊥
IsHeld b ptr n (x ∷ xs) = ((x ≡ taken b ptr n) × IsOccupied xs) ⊎ IsHeld b ptr n xs

-- The node at `b` becomes free, with all bytes from its header to the end of what it handed out, or is
-- joined to the free node before it, which grows by as many bytes.
abbrev pub give_node : ℕ → List Node → List Node
give_node b [] = []
give_node b (taken c p n ∷ xs) =
    if c == b then vacant c (p + n - c) ∷ xs else taken c p n ∷ give_node b xs
give_node b (vacant c m ∷ []) = vacant c m ∷ []
give_node b (vacant c m ∷ vacant d k ∷ xs) = vacant c m ∷ give_node b (vacant d k ∷ xs)
give_node b (vacant c m ∷ taken d p n ∷ xs) =
    let rest = give_node b (taken d p n ∷ xs) in
    if d == b then vacant c (m + (p + n - d)) ∷ xs else vacant c m ∷ rest

-- The blocks in the buffer are the nodes, from the first address to the end of the buffer.
pub record IsBuffer (s : BufferAllocCtx) (xs : List Node) : Type 0 where
  pub chain : IsChain s.blocks s.owners (s.buffer + s.capacity) 0 s.first xs
  pub starts : s.first ≡ s.buffer
