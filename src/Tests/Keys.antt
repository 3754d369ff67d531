-- ===== src/Tests/Keys.antt =====
-- A table as a list of bindings, of which the first counts and an item of 0 is none.
use netvirt.Prelude.{
  ℕ, ◌≡◌, ◌≢◌, refl, Bool, true, false, List, [], ◌∷◌, arith, ◌==◌, ◌&&◌, if◌then◌else◌, Bool-cases,
  inl, inr,
}
use netvirt.Tables.{HashTable}

abbrev pub same_key : List ℕ → List ℕ → Bool
same_key [] [] = true
same_key [] (y ∷ k) = false
same_key (x ∷ j) [] = false
same_key (x ∷ j) (y ∷ k) = x == y && same_key j k

pub same_key_sound : (j k : List ℕ) → same_key j k ≡ true → j ≡ k
same_key_sound [] [] h = refl
same_key_sound [] (y ∷ k) h = cc
same_key_sound (x ∷ j) [] h = cc
same_key_sound (x ∷ j) (y ∷ k) h =
    let e : x ≡ y = ground arith in let ih = same_key_sound j k (ground arith) in rw (e, ih) refl

pub same_key_refl : (j : List ℕ) → same_key j j ≡ true
same_key_refl [] = refl
same_key_refl (x ∷ j) = ground (arith, same_key_refl j)

abbrev pub Bindings : Type 0
Bindings = List (List ℕ × ℕ)

abbrev pub find : Bindings → List ℕ → ℕ
find [] j = 0
find ((k, item) ∷ t) j = if same_key k j then item else find t j

abbrev pub insert : Bindings → List ℕ → ℕ → Bindings
insert t k item = if find t k == 0 then (k, item) ∷ t else t

pub find-insert :
    (t : Bindings) (k j : List ℕ) (item : ℕ)
    → item ≢ 0
    → find (insert t k item) j ≡ (if same_key k j && find t k == 0 then item else find t j)
find-insert t k j item ne = elim (Bool-cases (find t k == 0)) [
  | inl new ↦ rw new (ground arith)
  | inr old ↦ rw old (ground arith)
]

abbrev pub bindings : HashTable
bindings = record {
  Table = Bindings;
  same_key = same_key;
  same_key_iff = λ j k. (same_key_sound j k, λ e. rw e (same_key_refl k));
  jsw_hnew = λ size. [];
  jsw_hfind = find;
  jsw_hinsert = insert;
  jsw_herase = λ t k. (k, 0) ∷ t;
  find_new = λ size k. refl;
  find_insert = find-insert;
  find_erase = λ t k j. refl;
}
