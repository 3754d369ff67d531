-- ===== src/Bitmap/Bits.antt =====
-- Single bits of a bit map: what a write changes, and what it leaves.
use netvirt.Prelude.{
  ℕ, zero, suc, ◌/◌, ◌%◌, ◌<◌, ◌≡◌, List, [], ◌∷◌, arith, ◌==◌, if◌then◌else◌, length, get_or, set,
  get_or-set, set-get_or, set-set, length-set,
}
use netvirt.Prelude.Bytes.{
  byte_set, byte_clear, byte_clear-byte_set, byte_range, byte_bit-lt, byte_bit-byte_set,
  byte_bit-byte_clear,
}
use netvirt.Bitmap.{get_bit, set_bit, clear_bit, IsBytes}

pub get_or-lt : (bs : List ℕ) (i : ℕ) → IsBytes bs → get_or bs i 0 < 256
get_or-lt [] i h = omega arith
get_or-lt (b ∷ bs) zero h = h.0
get_or-lt (b ∷ bs) (suc i) h = get_or-lt bs i h.1

set-IsBytes : (bs : List ℕ) (i v : ℕ) → v < 256 → IsBytes bs → IsBytes (set bs i v)
set-IsBytes [] i v lt h = tt
set-IsBytes (b ∷ bs) zero v lt h = (lt, h.1)
set-IsBytes (b ∷ bs) (suc i) v lt h = (h.0, set-IsBytes bs i v lt h.1)

module _ (bitmap : List ℕ) (bytes : IsBytes bitmap) where
  pub get_bit-lt : (k : ℕ) → get_bit bitmap k < 2
  unfolding get_bit
  get_bit-lt k = byte_bit-lt _ (get_or-lt bitmap (k / 8) bytes) (k % 8) (omega arith)

  module _ (i : ℕ) where
    pub set_bit-IsBytes : IsBytes (set_bit bitmap i)
    unfolding set_bit
    set_bit-IsBytes =
        set-IsBytes bitmap (i / 8) _
          (byte_range _ (get_or-lt bitmap (i / 8) bytes) (i % 8) (omega arith)).0 bytes

    pub clear_bit-IsBytes : IsBytes (clear_bit bitmap i)
    unfolding clear_bit
    clear_bit-IsBytes =
        set-IsBytes bitmap (i / 8) _
          (byte_range _ (get_or-lt bitmap (i / 8) bytes) (i % 8) (omega arith)).1 bytes

    module _ (inside : i / 8 < length bitmap) where
      pub get_bit-set_bit :
          (k : ℕ) → get_bit (set_bit bitmap i) k ≡ (if i == k then 1 else get_bit bitmap k)
      unfolding get_bit set_bit
      get_bit-set_bit k = ground (
        arith,
        get_or-set bitmap (i / 8) (k / 8) (byte_set (get_or bitmap (i / 8) 0) (i % 8)) 0,
        byte_bit-byte_set (get_or bitmap (i / 8) 0) (get_or-lt bitmap (i / 8) bytes) (i % 8)
            (omega arith) (k % 8) (omega arith),
      )

      pub get_bit-clear_bit :
          (k : ℕ) → get_bit (clear_bit bitmap i) k ≡ (if i == k then 0 else get_bit bitmap k)
      unfolding get_bit clear_bit
      get_bit-clear_bit k = ground (
        arith,
        get_or-set bitmap (i / 8) (k / 8) (byte_clear (get_or bitmap (i / 8) 0) (i % 8)) 0,
        byte_bit-byte_clear (get_or bitmap (i / 8) 0) (get_or-lt bitmap (i / 8) bytes) (i % 8)
            (omega arith) (k % 8) (omega arith),
      )

      -- Clearing a bit that was clear before it was set gives the same bytes.
      pub clear_bit-set_bit : get_bit bitmap i ≡ 0 → clear_bit (set_bit bitmap i) i ≡ bitmap
      unfolding get_bit set_bit clear_bit
      clear_bit-set_bit e = ground (
        arith,
        get_or-set bitmap (i / 8) (i / 8) (byte_set (get_or bitmap (i / 8) 0) (i % 8)) 0,
        set-set bitmap (i / 8) (byte_set (get_or bitmap (i / 8) 0) (i % 8))
            (byte_clear (byte_set (get_or bitmap (i / 8) 0) (i % 8)) (i % 8)),
        byte_clear-byte_set (get_or bitmap (i / 8) 0) (get_or-lt bitmap (i / 8) bytes) (i % 8)
            (omega arith) e,
        set-get_or bitmap (i / 8) 0,
      )

pub length-set_bit : (bitmap : List ℕ) (i : ℕ) → length (set_bit bitmap i) ≡ length bitmap
unfolding set_bit
length-set_bit bitmap i = length-set bitmap (i / 8) _

pub length-clear_bit : (bitmap : List ℕ) (i : ℕ) → length (clear_bit bitmap i) ≡ length bitmap
unfolding clear_bit
length-clear_bit bitmap i = length-set bitmap (i / 8) _
