-- ===== src/Base/Word.antt =====
-- `usize`, `uptr`: unsigned 64-bit arithmetic. `-` on ℕ stops at 0, so the modulus is added first.
use Prim.Native.Nat.{ℕ, ◌+◌, ◌-◌, ◌*◌, ◌%◌, ◌^◌}

abbrev pub word_mod : ℕ
word_mod = 2 ^ 64

abbrev pub add_size : ℕ → ℕ → ℕ
add_size a b = (a + b) % word_mod

abbrev pub sub_size : ℕ → ℕ → ℕ
sub_size a b = (a + word_mod - b) % word_mod

abbrev pub mul_size : ℕ → ℕ → ℕ
mul_size a b = a * b % word_mod

-- `~x`
abbrev pub complement : ℕ → ℕ
complement x = word_mod - 1 - x

-- `sizeof(void*)`, `alignof(void*)` and `alignof(max_align_t)` of the 64-bit target
abbrev pub ptr_size : ℕ
ptr_size = 8

abbrev pub max_alignment : ℕ
max_alignment = 16
