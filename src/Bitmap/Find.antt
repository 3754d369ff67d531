-- ===== src/Bitmap/Find.antt =====
-- The loops of an allocation find the first clear bit.
use netvirt.Prelude.{
  ℕ, zero, suc, ◌+◌, ◌*◌, ◌/◌, ◌%◌, ◌≤◌, ◌<◌, ◌≡◌, ◌≢◌, true, List, [], ◌∷◌, arith, Option, some,
  ◌⊎◌, inl, inr, ◌==◌, get_or, drop, get_or-drop, Bool-cases, all_below, all_below_intro, ==_iff,
}
use netvirt.Prelude.Bytes.{byte_bit, byte_has_clear, byte_bit_ones}
use netvirt.Bitmap.{get_bit, find_byte, find_bit, IsBytes}
use netvirt.Bitmap.Bits.{get_or-lt, get_bit-lt}

-- `find_byte` stops at the first byte that is not full, or at the end.
pub find_byte_lem :
    (left : ℕ) (bitmap : List ℕ) (i : ℕ)
    → let r = find_byte left bitmap i in
      (i ≤ r)
      × (r ≤ i + left)
      × ((r < i + left) → get_or bitmap r 0 ≢ 0xff)
      × ((k : ℕ) → i ≤ k → k < r → get_or bitmap k 0 ≡ 0xff)
unfolding find_byte
find_byte_lem zero bitmap i =
    (omega arith, omega arith, λ h. absurd (omega arith), λ k h l. absurd (omega arith))
find_byte_lem (suc left) bitmap i = elim (Bool-cases (get_or bitmap i 0 == 0xff)) [
  | inl full ↦
      let (low, high, stop, before) = find_byte_lem left bitmap (i + 1) in
      rw full (
        (
          omega arith,
          omega arith,
          λ h. stop (omega arith),
          λ k h l. elim (Bool-cases (k == i)) [
            | inl here ↦ ground arith
            | inr later ↦ before k (ground arith) l
          ],
        ))
  | inr free ↦
      rw free ((omega arith, omega arith, λ h. ground arith, λ k h l. absurd (omega arith)))
]

-- The bits of the first byte, and those behind a pointer `bitmap + i`.
first_byte : (bitmap : List ℕ) (j : ℕ) → j < 8 → get_bit bitmap j ≡ byte_bit (get_or bitmap 0 0) j
unfolding get_bit
first_byte bitmap j l =
    let p : j / 8 ≡ 0 = omega arith in let q : j % 8 ≡ j = omega arith in rw (p, q)

pub get_bit-drop :
    (bitmap : List ℕ) (i j : ℕ) → get_bit (drop i bitmap) j ≡ get_bit bitmap (i * 8 + j)
unfolding get_bit
get_bit-drop bitmap i j =
    let p : (i * 8 + j) / 8 ≡ i + j / 8 = omega arith in
    let q : (i * 8 + j) % 8 ≡ j % 8 = omega arith in rw (p, q, get_or-drop)

pub drop-IsBytes : (bitmap : List ℕ) (i : ℕ) → IsBytes bitmap → IsBytes (drop i bitmap)
drop-IsBytes bitmap zero h = h
drop-IsBytes [] (suc i) h = tt
drop-IsBytes (b ∷ bs) (suc i) h = drop-IsBytes bs i h.1

-- In a byte that is full every bit is set.
pub get_bit_of_full :
    (bitmap : List ℕ) (k : ℕ) → get_or bitmap (k / 8) 0 ≡ 0xff → get_bit bitmap k ≡ 1
unfolding get_bit
get_bit_of_full bitmap k e = rw e (byte_bit_ones (k % 8) (omega arith))

-- What the search for a clear bit among the eight of the first byte comes to.
abbrev pub FirstClear : List ℕ → ℕ → Option ℕ → Type 0
FirstClear bitmap j r =
    (m : ℕ) × (r ≡ some m)
    × (j ≤ m)
    × (m < 8)
    × (get_bit bitmap m ≡ 0)
    × ((k : ℕ) → j ≤ k → k < m → get_bit bitmap k ≡ 1)

find_bit_lem :
    (fuel : ℕ) (bitmap : List ℕ) (j : ℕ)
    → IsBytes bitmap
    → j + fuel ≡ 8
    → FirstClear bitmap j (find_bit fuel bitmap j)
      ⊎ ((k : ℕ) → j ≤ k → k < 8 → get_bit bitmap k ≡ 1)
unfolding find_bit
find_bit_lem zero bitmap j bytes e = inr (λ k h l. absurd (omega arith))
find_bit_lem (suc fuel) bitmap j bytes e = elim (Bool-cases (get_bit bitmap j == 0)) [
  | inl clear ↦
      inl (j, rw clear, omega arith, omega arith, ground arith, λ k h l. absurd (omega arith))
  | inr used ↦
      let one : get_bit bitmap j ≡ 1 = ground (arith, get_bit-lt bitmap bytes j) in
      let here : (k : ℕ) → (k == j) ≡ true → get_bit bitmap k ≡ 1 = λ k e. ground arith in
      elim (find_bit_lem fuel bitmap (j + 1) bytes (omega arith)) [
        | inl (m, got, low, high, clear, before) ↦ inl (
            (
              m,
              rw used got,
              omega arith,
              high,
              clear,
              λ k h l. elim (Bool-cases (k == j)) [
                | inl eq ↦ here k eq
                | inr ne ↦ before k (ground arith) l
              ],
            ))
        | inr all ↦ inr (λ k h l. elim (Bool-cases (k == j)) [
          | inl eq ↦ here k eq
          | inr ne ↦ all k (ground arith) l
        ])
      ]
]

-- In a byte that is not full the search ends, and eight rounds are enough.
pub find_bit_ends :
    (bitmap : List ℕ)
    → IsBytes bitmap
    → get_or bitmap 0 0 ≢ 0xff
    → FirstClear bitmap 0 (find_bit 8 bitmap 0)
find_bit_ends bitmap bytes ne = elim (find_bit_lem 8 bitmap 0 bytes (omega arith)) [
  | inl found ↦ found
  | inr all ↦
      absurd (full (all_below_intro 8 _ λ j l. (==_iff _ _).1 (byte j l (all j (omega arith) l))))
]
  where
    full : ¬ (all_below 8 (λ j. byte_bit (get_or bitmap 0 0) j == 1) ≡ true)
    full t = let f = byte_has_clear _ (get_or-lt bitmap 0 bytes) ne in cc

    byte : (j : ℕ) → j < 8 → get_bit bitmap j ≡ 1 → byte_bit (get_or bitmap 0 0) j ≡ 1
    byte j l h = rw (← first_byte bitmap j l) h
