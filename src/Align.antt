-- ===== src/Align.antt =====
-- include/base/foundation/memory/memory.h: `align_up`, `align_down` (and their pointer versions,
-- which compute the same on 64 bits), and the two assertions on an alignment that the allocators
-- and the memory sources share.
pub mod Bounds
pub mod Power
use Prim.Native.Nat.{bit_and}
use c_base.Base.{ℕ, ltb, ◌==◌}
use c_base.Base.Run.{Run, assert, ◌>>=◌, ◌>>◌}
use c_base.Base.Word.{add_size, sub_size, complement}

-- `(ptr + alignment - 1) & ~(alignment - 1)`
unfoldable pub align_up : ℕ → ℕ → ℕ
align_up ptr alignment =
    bit_and (sub_size (add_size ptr alignment) 1) (complement (sub_size alignment 1))

-- `ptr & ~(alignment - 1)`
unfoldable pub align_down : ℕ → ℕ → ℕ
align_down ptr alignment = bit_and ptr (complement (sub_size alignment 1))

-- `assert(alignment > 0); assert((alignment & (alignment - 1)) == 0);`
unfoldable pub check_alignment : ℕ → Run (Unit {0})
check_alignment alignment = do
  assert (ltb 0 alignment)
  assert (bit_and alignment (sub_size alignment 1) == 0)
