-- ===== src/Bitmap/Search.antt =====
-- The two loops of an allocation together: the first clear bit below `8 * n`, or none there.
use netvirt.Prelude.{
  ℕ, ◌+◌, ◌-◌, ◌*◌, ◌/◌, ◌<◌, ◌≡◌, List, arith, some, ◌⊎◌, inl, inr, drop, get_or-drop, Bool-cases,
  ltb, add-zero,
}
use netvirt.Bitmap.{get_bit, find_byte, find_bit, IsBytes, IsFirstClear}
use netvirt.Bitmap.Find.{find_byte_lem, find_bit_ends, get_bit-drop, drop-IsBytes, get_bit_of_full}

module _ (n : ℕ) (bitmap : List ℕ) where
  unfoldable pub byte_index : ℕ
  byte_index = find_byte n bitmap 0

  abbrev pub Full : Type 0
  Full = (byte_index ≡ n) × ((k : ℕ) → k < 8 * n → get_bit bitmap k ≡ 1)

  abbrev pub Found : Type 0
  Found =
      (m : ℕ) × (byte_index < n)
      × (m < 8)
      × (find_bit 8 (drop byte_index bitmap) 0 ≡ some m)
      × IsFirstClear bitmap (byte_index * 8 + m)

  pub search : IsBytes bitmap → Full ⊎ Found
  unfolding byte_index
  search bytes =
      let (low, high, stop, before) = find_byte_lem n bitmap 0 in
      let used : (k : ℕ) → k < 8 * byte_index → get_bit bitmap k ≡ 1 =
        λ k l. get_bit_of_full bitmap k (before (k / 8) (omega arith) (omega arith)) in
      elim (Bool-cases (ltb byte_index n)) [
        | inr at_end ↦ inl (ground arith, λ k l. used k (ground arith))
        | inl inside ↦
            let (m, got, _, lt, clear, less) =
              find_bit_ends (drop byte_index bitmap) (drop-IsBytes bitmap byte_index bytes)
                (rw (get_or-drop, add-zero) (stop (ground arith))) in
            inr (
              m,
              ground arith,
              lt,
              got,
              record {
                clear = rw get_bit-drop at clear;
                before = λ k l. elim (Bool-cases (ltb k (byte_index * 8))) [
                  | inl below ↦ used k (ground arith)
                  | inr above ↦
                      let e : byte_index * 8 + (k - byte_index * 8) ≡ k = ground arith in
                      let t =
                        rw get_bit-drop at
                          (less (k - byte_index * 8) (omega arith) (ground arith)) in
                      rw e at t
                ];
              },
            )
      ]
