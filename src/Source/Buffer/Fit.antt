-- ===== src/Source/Buffer/Fit.antt =====
-- `buffer_try_fit_pointer_in_block` and the loop of `buffer_reserve`: the block that is found.
use c_base.Base.{
  ℕ, zero, suc, ◌+◌, ◌%◌, ◌≤◌, ◌<◌, ◌≡◌, refl, ap, ◌∙◌, ◌⊎◌, inl, inr, List, [], ◌∷◌, true, false,
  arith, ◌==◌, Option-cases, length, Option, none, some,
}
use c_base.Base.Run.{Run, ok, Returns}
use c_base.Base.Word.{add_size, word_mod, ptr_size}
use c_base.Align.{align_up}
use c_base.Align.Bounds.{IsAlignment, IsAlignUp, align_up-IsAlignUp}
use c_base.Source.Buffer.{BufferBlock, buffer_try_fit_pointer_in_block, fit_loop}
use c_base.Source.Buffer.Chain.{
  Node, vacant, taken, address, limit, IsNode, IsChain, chain_end, HasRoom,
}

nonzero : (p : ℕ) → 0 < p → (p == 0) ≡ false
nonzero p h = ground arith

-- No free block is large enough for the request behind its header, padding included.
abbrev pub IsFull : ℕ → ℕ → List Node → Type 0
IsFull size alignment [] = Unit
IsFull size alignment (vacant b n ∷ xs) =
    (b + n < align_up (b + 40) alignment + size) × IsFull size alignment xs
IsFull size alignment (taken b p n ∷ xs) = IsFull size alignment xs

-- What the loop returns: null if no block is large enough, or a block with room for the request, at an
-- aligned pointer.
abbrev pub Found : ℕ → ℕ → List Node → Option (ℕ × ℕ) → Type 0
Found size alignment xs none = IsFull size alignment xs
Found size alignment xs (some (ptr, b)) = (ptr % alignment ≡ 0) × HasRoom b ptr size xs

module _ (blocks : ℕ → BufferBlock) (owners : ℕ → ℕ) (stop size alignment : ℕ)
    (a : IsAlignment alignment) (sane : stop + stop + 40 + alignment ≤ word_mod) where
  try_fit_cases :
      (b : ℕ) (block : BufferBlock) (ptr : ℕ)
      → buffer_try_fit_pointer_in_block b block size alignment ≡ some ptr
      → (block.free ≡ true)
        × (size ≤ block.size)
        × (ptr ≡ align_up (add_size (add_size b 32) ptr_size) alignment)
        × (add_size ptr size ≤ add_size b block.size)
  unfolding buffer_try_fit_pointer_in_block
  try_fit_cases b block ptr e = ground (arith, e)

  -- A pointer that fits in the block of a node: the node is free, and there is room.
  try_fit-HasRoom :
      (x : Node) (xs : List Node)
      → address x + 32 ≤ limit xs stop
      → limit xs stop ≤ stop
      → IsNode blocks owners (limit xs stop) x
      → (ptr : ℕ)
      → buffer_try_fit_pointer_in_block (address x) (blocks (address x)) size alignment ≡ some ptr
      → (ptr % alignment ≡ 0)
        × ((n : ℕ) × (x ≡ vacant (address x) n)
            × (address x + 40 ≤ ptr)
            × (ptr + size ≤ address x + n))
  unfolding buffer_try_fit_pointer_in_block
  try_fit-HasRoom (vacant b n) xs room le (free, bytes, ends) ptr e = (
    rw is (target.multiple),
    (n, refl, omega (arith, is, target), omega (arith, is, target, bytes, cases.1, cases.3)),
  )
    where
      cases :
          ((blocks b).free ≡ true)
          × (size ≤ (blocks b).size)
          × (ptr ≡ align_up (add_size (add_size b 32) ptr_size) alignment)
          × (add_size ptr size ≤ add_size b (blocks b).size)
      cases = try_fit_cases b (blocks b) ptr e

      target : IsAlignUp (b + 40) alignment (align_up (b + 40) alignment)
      target = align_up-IsAlignUp (b + 40) a (omega arith)

      is : ptr ≡ align_up (b + 40) alignment
      is = cases.2 ∙ ap (λ m. align_up m alignment) (omega arith)
  try_fit-HasRoom (taken b p n) xs room le (used, _, _, _, _) ptr e =
      absurd (cc (used, (try_fit_cases b (blocks b) ptr e).0))

  try_none_cases :
      (b : ℕ) (block : BufferBlock)
      → buffer_try_fit_pointer_in_block b block size alignment ≡ none
      → block.free ≡ true
      → (block.size < size)
        ⊎ (add_size b block.size
            < add_size (align_up (add_size (add_size b 32) ptr_size) alignment) size)
  unfolding buffer_try_fit_pointer_in_block
  try_none_cases b block e free = ground (arith, e, free)

  try_none-IsFull :
      (x : Node) (xs : List Node)
      → address x + 32 ≤ limit xs stop
      → limit xs stop ≤ stop
      → IsNode blocks owners (limit xs stop) x
      → buffer_try_fit_pointer_in_block (address x) (blocks (address x)) size alignment ≡ none
      → IsFull size alignment xs
      → IsFull size alignment (x ∷ xs)
  try_none-IsFull (vacant b n) xs room le (free, bytes, ends) e full = (small, full)
    where
      target : IsAlignUp (b + 40) alignment (align_up (b + 40) alignment)
      target = align_up-IsAlignUp (b + 40) a (omega arith)

      plain : align_up (add_size (add_size b 32) ptr_size) alignment ≡ align_up (b + 40) alignment
      plain = ap (λ m. align_up m alignment) (omega arith)

      small : b + n < align_up (b + 40) alignment + size
      small = elim (try_none_cases b (blocks b) e free) [
        | inl lt ↦ omega (arith, target, bytes, lt)
        | inr lt ↦ omega (arith, target, plain, bytes, lt)
      ]
  try_none-IsFull (taken b p n) xs room le node e full = full

  loop_found :
      (fuel p ptr : ℕ)
      → 0 < p
      → buffer_try_fit_pointer_in_block p (blocks p) size alignment ≡ some ptr
      → fit_loop (suc fuel) blocks p size alignment ≡ ok (some (ptr, p))
  unfolding fit_loop
  loop_found fuel p ptr pos e = rw (nonzero p pos, e) refl

  loop_next :
      (fuel p : ℕ)
      → 0 < p
      → buffer_try_fit_pointer_in_block p (blocks p) size alignment ≡ none
      → fit_loop (suc fuel) blocks p size alignment
        ≡ fit_loop fuel blocks ((blocks p).next) size alignment
  unfolding fit_loop
  loop_next fuel p pos e = rw (nonzero p pos, e) refl

  loop_end : (fuel : ℕ) → fit_loop (suc fuel) blocks 0 size alignment ≡ ok none
  unfolding fit_loop
  loop_end fuel = refl

  Found-later :
      (x : Node) (xs : List Node)
      → IsChain blocks owners stop (address x) ((blocks (address x)).next) xs
      → address x + 32 ≤ limit xs stop
      → IsNode blocks owners (limit xs stop) x
      → buffer_try_fit_pointer_in_block (address x) (blocks (address x)) size alignment ≡ none
      → (found : Option (ℕ × ℕ)) → Found size alignment xs found
      → Found size alignment (x ∷ xs) found
  Found-later x xs rest room node e none post =
      try_none-IsFull x xs room
        (chain_end blocks owners stop (address x) ((blocks (address x)).next) xs rest) node e post
  Found-later x xs rest room node e (some (ptr, b)) (aligned, r) = (aligned, inr r)

  pub fit_loop-Found :
      (fuel prev p : ℕ) (xs : List Node)
      → IsChain blocks owners stop prev p xs
      → length xs < fuel
      → Returns (fit_loop fuel blocks p size alignment) (Found size alignment xs)
  fit_loop-Found zero prev p xs c enough = absurd (omega arith)
  fit_loop-Found (suc fuel) prev p [] c enough =
      (none, ap (λ q. fit_loop (suc fuel) blocks q size alignment) c ∙ loop_end fuel, tt)
  fit_loop-Found (suc fuel) prev p (x ∷ xs) (here, pos, room, back, node, rest) enough =
      elim (Option-cases
        (buffer_try_fit_pointer_in_block (address x) (blocks (address x)) size alignment)) [
          | inl e ↦
              let (found, run, post) =
                fit_loop-Found fuel (address x) ((blocks (address x)).next) xs rest (omega arith) in
              (
                found,
                ap loop here ∙ loop_next fuel (address x) pos e ∙ run,
                Found-later x xs rest room node e found post,
              )
          | inr (ptr, e) ↦
              let (aligned, room_for) =
                try_fit-HasRoom x xs room
                  (chain_end blocks owners stop (address x) ((blocks (address x)).next) xs rest)
                  node ptr e in
              (
                some (ptr, address x),
                ap loop here ∙ loop_found fuel (address x) ptr pos e,
                (aligned, inl room_for),
              )
        ]
    where
      loop : ℕ → Run (Option (ℕ × ℕ))
      loop q = fit_loop (suc fuel) blocks q size alignment
