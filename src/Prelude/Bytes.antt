-- ===== src/Prelude/Bytes.antt =====
-- The bits of a byte: `(b >> j) & 1`, `b |= 1 << j` and `b &= ~(1 << j)`, checked at every value.
use Prim.Native.Nat.{ℕ, ◌+◌, ◌-◌, ◌*◌, ◌/◌, ◌%◌, ◌^◌, ◌<◌, bit_and, bit_or}
use mathlib.Core.Path.{◌≡◌, refl}
use mathlib.Core.Bool.{true, false, ◌&&◌, ◌||◌, not}
use mathlib.Core.Logic.{◌≢◌}
use native.Mathlib.Omega.{arith}
use netvirt.Prelude.Tests.{◌==◌, ltb, if◌then◌else◌, ==_iff, all_below, at_below}

abbrev pub u32_mod : ℕ
u32_mod = 2 ^ 32

abbrev pub u64_mod : ℕ
u64_mod = 2 ^ 64

unfoldable pub byte_bit : ℕ → ℕ → ℕ
byte_bit b j = bit_and (b / 2 ^ j) 1

unfoldable pub byte_set : ℕ → ℕ → ℕ
byte_set b j = bit_or b (2 ^ j)

unfoldable pub byte_clear : ℕ → ℕ → ℕ
byte_clear b j = bit_and b (u32_mod - 1 - 2 ^ j)

set_table :
    all_below 16384 (λ x.
      byte_bit (byte_set (x % 256) (x / 256 % 8)) (x / 2048)
      == (if x / 256 % 8 == x / 2048 then 1 else byte_bit (x % 256) (x / 2048)))
    ≡ true
unfolding all_below byte_bit byte_set
set_table = refl

clear_table :
    all_below 16384 (λ x.
      byte_bit (byte_clear (x % 256) (x / 256 % 8)) (x / 2048)
      == (if x / 256 % 8 == x / 2048 then 0 else byte_bit (x % 256) (x / 2048)))
    ≡ true
unfolding all_below byte_bit byte_clear
clear_table = refl

undo_table :
    all_below 2048 (λ x.
      byte_bit (x % 256) (x / 256) == 1
      || byte_clear (byte_set (x % 256) (x / 256)) (x / 256) == x % 256)
    ≡ true
unfolding all_below byte_bit byte_set byte_clear
undo_table = refl

range_table :
    all_below 2048
      (λ x. ltb (byte_set (x % 256) (x / 256)) 256 && ltb (byte_clear (x % 256) (x / 256)) 256)
    ≡ true
unfolding all_below byte_set byte_clear
range_table = refl

-- A byte other than 0xff has a clear bit.
full_table : all_below 256 (λ b. b == 0xff || not (all_below 8 (λ j. byte_bit b j == 1))) ≡ true
unfolding all_below byte_bit
full_table = refl

bit_table : all_below 2048 (λ x. ltb (byte_bit (x % 256) (x / 256)) 2) ≡ true
unfolding all_below byte_bit
bit_table = refl

ones_table : all_below 8 (λ j. byte_bit 0xff j == 1) ≡ true
unfolding all_below byte_bit
ones_table = refl

module _ (b : ℕ) (b_lt : b < 256) (j : ℕ) (j_lt : j < 8) where
  index : ℕ
  index = b + 256 * j

  index_parts : (index % 256 ≡ b) × (index / 256 ≡ j) × (index < 2048)
  unfolding index
  index_parts = omega arith

  pub byte_clear-byte_set : byte_bit b j ≡ 0 → byte_clear (byte_set b j) j ≡ b
  byte_clear-byte_set e =
      let (p, q, r) = index_parts in
      let t = rw (p, q) at (at_below _ 2048 r undo_table) in ground arith

  pub byte_range : (byte_set b j < 256) × (byte_clear b j < 256)
  byte_range =
      let (p, q, r) = index_parts in
      let t = rw (p, q) at (at_below _ 2048 r range_table) in ground arith

  pub byte_bit-lt : byte_bit b j < 2
  byte_bit-lt =
      let (p, q, r) = index_parts in
      let t = rw (p, q) at (at_below _ 2048 r bit_table) in ground arith

  module _ (k : ℕ) (k_lt : k < 8) where
    index₂ : ℕ
    index₂ = b + 256 * j + 2048 * k

    index₂_parts :
        (index₂ % 256 ≡ b) × (index₂ / 256 % 8 ≡ j) × (index₂ / 2048 ≡ k) × (index₂ < 16384)
    unfolding index₂
    index₂_parts = omega arith

    pub byte_bit-byte_set : byte_bit (byte_set b j) k ≡ (if j == k then 1 else byte_bit b k)
    byte_bit-byte_set =
        let (p, q, r, lt) = index₂_parts in
        let t = rw (p, q, r) at (at_below _ 16384 lt set_table) in (==_iff _ _).0 t

    pub byte_bit-byte_clear : byte_bit (byte_clear b j) k ≡ (if j == k then 0 else byte_bit b k)
    byte_bit-byte_clear =
        let (p, q, r, lt) = index₂_parts in
        let t = rw (p, q, r) at (at_below _ 16384 lt clear_table) in (==_iff _ _).0 t

pub byte_has_clear : (b : ℕ) → b < 256 → b ≢ 0xff → all_below 8 (λ j. byte_bit b j == 1) ≡ false
byte_has_clear b h ne = let t = at_below _ 256 h full_table in ground arith

pub byte_bit_ones : (j : ℕ) → j < 8 → byte_bit 0xff j ≡ 1
byte_bit_ones j h = (==_iff _ _).0 (at_below _ 8 h ones_table)

zero_table : all_below 8 (λ j. byte_bit 0 j == 0) ≡ true
unfolding all_below byte_bit
zero_table = refl

pub byte_bit_zero : (j : ℕ) → j < 8 → byte_bit 0 j ≡ 0
byte_bit_zero j h = (==_iff _ _).0 (at_below _ 8 h zero_table)
