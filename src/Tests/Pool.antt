-- ===== src/Tests/Pool.antt =====
-- The pool of identifiers at concrete bytes.
use netvirt.Prelude.{
  ℕ, ◌*◌, ◌/◌, ◌<◌, ◌≡◌, refl, List, [], ◌∷◌, arith, ◌==◌, ◌&&◌, ltb, if◌then◌else◌, pos, minus_one,
  ◌⊎◌,
}
use netvirt.Prelude.Bytes.{byte_bit, byte_set}
use netvirt.Bitmap.{get_bit, set_bit, find_byte, find_bit, full, allocated}
use netvirt.Bitpool.{bitpool_allocate_bit, bitpool_release_bit}
use netvirt.Bitpool.Laws.{
  IsPool, IsAllocation, allocate-IsAllocation, release-allocate, release-get_bit,
}

abbrev busy : List ℕ
busy = 0xff ∷ 5 ∷ []

abbrev busier : List ℕ
busier = 0xff ∷ 7 ∷ []

busy-IsPool : IsPool 16 busy
busy-IsPool = record {
  bytes = (omega arith, (omega arith, tt));
  room = omega arith;
  word = omega arith;
}

allocate_busy : bitpool_allocate_bit busy 16 ≡ allocated 9 busier
unfolding bitpool_allocate_bit find_byte find_bit get_bit set_bit byte_bit byte_set
allocate_busy = refl

allocate-IsAllocation_example :
    ((bitpool_allocate_bit busy 16 ≡ full) × ((k : ℕ) → k < 8 * (16 / 8) → get_bit busy k ≡ 1))
    ⊎ ((bit : ℕ) × (after : List ℕ) × (bitpool_allocate_bit busy 16 ≡ allocated bit after)
        × IsAllocation 16 busy after bit)
allocate-IsAllocation_example = allocate-IsAllocation busy-IsPool

release-allocate_example : bitpool_release_bit busier 16 9 ≡ (pos 0, busy)
release-allocate_example = release-allocate busy-IsPool 9 busier allocate_busy

release-get_bit_example :
    ((bitpool_release_bit busy 16 8).0 ≡ (if ltb 8 16 then pos 0 else minus_one))
    × ((k : ℕ)
        → get_bit (bitpool_release_bit busy 16 8).1 k
          ≡ (if ltb 8 16 && 8 == k then 0 else get_bit busy k))
    × IsPool 16 (bitpool_release_bit busy 16 8).1
release-get_bit_example = release-get_bit busy-IsPool 8
