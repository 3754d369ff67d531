-- ===== src/Bitpool.antt =====
-- libnvcore/src/bitv.c: the pool of session identifiers of a virtual network. A function that
-- writes through `bitpool` returns the new bytes.
pub mod Laws
use netvirt.Prelude.{
  ℕ, zero, suc, ◌+◌, ◌*◌, ◌/◌, ◌%◌, ℤ, pos, minus_one, List, none, some, ◌==◌, ltb, if◌then◌else◌,
  drop, replicate,
}
use netvirt.Prelude.Bytes.{u32_mod}
use netvirt.Bitmap.{set_bit, clear_bit, find_byte, find_bit, Alloc, full, stuck, allocated}

unfoldable pub bitpool_release_bit : List ℕ → ℕ → ℕ → ℤ × List ℕ
bitpool_release_bit bitpool nbits bit =
    if ltb bit nbits then (pos 0, clear_bit bitpool bit) else (minus_one, bitpool)

-- `full` is the -1, and `allocated bit bitpool` the 0. A byte that is not full ends the bit loop
-- within eight rounds.
unfoldable pub bitpool_allocate_bit : List ℕ → ℕ → Alloc
bitpool_allocate_bit bitpool nbits =
    let nbyte = nbits / 8 in
    let i = find_byte nbyte bitpool 0 in
    if i == nbyte then full else elim (find_bit 8 (drop i bitpool) 0) [
      | none ↦ stuck
      | some j ↦ let bit = (i * 8 + j) % u32_mod in allocated bit (set_bit bitpool bit)
    ]

-- `calloc` of `(nbits + 7) / 8` bytes, that it succeeds included.
unfoldable pub bitpool_new : ℕ → List ℕ
bitpool_new nbits = replicate ((nbits + 7) / 8) 0
