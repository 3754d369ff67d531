-- ===== src/Bitmap.antt =====
-- The bit maps of libnvcore/src/bitv.c and nvctrler/src/ippool.c, which hold the same text for
-- `get_bit`, `set_bit` and `clear_bit` (`reset_bit` there), and the two loops of an allocation.
pub mod Bits
pub mod Find
pub mod Search
use netvirt.Prelude.{
  ℕ, zero, suc, ◌+◌, ◌/◌, ◌%◌, ◌<◌, Option, none, some, ◌≡◌, List, [], ◌∷◌, ◌==◌, if◌then◌else◌,
  get_or, set,
}
use netvirt.Prelude.Bytes.{byte_bit, byte_set, byte_clear}

-- A read out of bounds gives 0 and a write there does nothing; the theorems show that neither
-- happens.
unfoldable pub get_bit : List ℕ → ℕ → ℕ
get_bit bitmap bit = byte_bit (get_or bitmap (bit / 8) 0) (bit % 8)

unfoldable pub set_bit : List ℕ → ℕ → List ℕ
set_bit bitmap bit = set bitmap (bit / 8) (byte_set (get_or bitmap (bit / 8) 0) (bit % 8))

unfoldable pub clear_bit : List ℕ → ℕ → List ℕ
clear_bit bitmap bit = set bitmap (bit / 8) (byte_clear (get_or bitmap (bit / 8) 0) (bit % 8))

-- `for (i = 0; (i < nbyte) && (bitmap[i] == 0xff); i++);` with the rounds left.
unfoldable pub find_byte : ℕ → List ℕ → ℕ → ℕ
find_byte zero bitmap i = i
find_byte (suc left) bitmap i =
    let rest = find_byte left bitmap (i + 1) in if get_or bitmap i 0 == 0xff then rest else i

-- `for (j = 0; get_bit(bitmap + i, j); j++);` on fuel, on the bytes from `bitmap + i` on.
unfoldable pub find_bit : ℕ → List ℕ → ℕ → Option ℕ
unfolding get_bit
find_bit zero bitmap j = none
find_bit (suc fuel) bitmap j =
    let rest = find_bit fuel bitmap (j + 1) in if get_bit bitmap j == 0 then some j else rest

-- What an array of `uint8_t` holds.
abbrev pub IsBytes : List ℕ → Type 0
IsBytes [] = Unit
IsBytes (b ∷ bs) = (b < 256) × IsBytes bs

-- The end of an allocation: no bit is left, a bit and the map with it set, or a bit loop that
-- outlives its fuel (never reached: `Bitmap.Search`).
pub data Alloc : Type 0 where
  full : Alloc
  stuck : Alloc
  allocated : ℕ → List ℕ → Alloc

-- The lowest clear bit.
pub record IsFirstClear (bitmap : List ℕ) (bit : ℕ) : Type 0 where
  pub clear : get_bit bitmap bit ≡ 0
  pub before : (k : ℕ) → k < bit → get_bit bitmap k ≡ 1
