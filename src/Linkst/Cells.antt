-- ===== src/Linkst/Cells.antt =====
-- The cells of the matrix: reads after writes, after growth, and after the loop of a disjoin.
use netvirt.Prelude.{
  ℕ, zero, suc, ◌+◌, ◌-◌, ◌≤◌, ◌<◌, ◌≡◌, refl, ap, Bool, true, false, List, [], ◌∷◌, ◌++◌, arith,
  ◌==◌, ltb, leb, if◌then◌else◌, ◌&&◌, ◌||◌, length, get_or, set, get_or-set, get_or-replicate,
  get_or_past, length-replicate, length-set, Bool-cases, inl, inr, ◌∙◌,
}
use netvirt.Linkst.{Link, no_link, cell, set_cell, new_rows, disjoin_pair, disjoin_loop}

abbrev pub is_linked : List (List Link) → ℕ → ℕ → Bool
is_linked rows i j = (cell rows i j).linked == 1

-- Row `i` and those after it hold `i + 1`, `i + 2`, … links.
abbrev pub IsTriangle : ℕ → List (List Link) → Type 0
IsTriangle i [] = Unit
IsTriangle i (row ∷ rows) = (length row ≡ i + 1) × IsTriangle (i + 1) rows

pub length-row :
    (i : ℕ) (rows : List (List Link)) (k : ℕ)
    → IsTriangle i rows
    → k < length rows
    → length (get_or rows k []) ≡ i + k + 1
length-row i [] k h lt = absurd (omega arith)
length-row i (row ∷ rows) zero h lt = omega arith
length-row i (row ∷ rows) (suc k) h lt = omega (arith, length-row (i + 1) rows k h.1 (omega arith))

set-IsTriangle :
    (i : ℕ) (rows : List (List Link)) (k : ℕ) (row : List Link)
    → length row ≡ length (get_or rows k [])
    → IsTriangle i rows
    → IsTriangle i (set rows k row)
set-IsTriangle i [] k row e h = tt
set-IsTriangle i (r ∷ rows) zero row e h = (omega arith, h.1)
set-IsTriangle i (r ∷ rows) (suc k) row e h = (h.0, set-IsTriangle (i + 1) rows k row e h.1)

pub set_cell-IsTriangle :
    (rows : List (List Link)) (i j : ℕ) (link : Link)
    → IsTriangle 0 rows
    → IsTriangle 0 (set_cell rows i j link)
unfolding set_cell
set_cell-IsTriangle rows i j link h =
    set-IsTriangle 0 rows i _ (length-set (get_or rows i []) j link) h

pub length-set_cell :
    (rows : List (List Link)) (i j : ℕ) (link : Link)
    → length (set_cell rows i j link) ≡ length rows
unfolding set_cell
length-set_cell rows i j link = length-set rows i _

pub new_rows-IsTriangle :
    (n i k : ℕ) (rows : List (List Link))
    → IsTriangle i rows
    → i + length rows ≡ k
    → IsTriangle i (rows ++ new_rows n k)
unfolding new_rows
new_rows-IsTriangle zero i k [] h e = tt
new_rows-IsTriangle (suc n) i k [] h e = (
  omega (arith, length-replicate {A = Link} (k + 1) no_link),
  new_rows-IsTriangle n (i + 1) (k + 1) [] tt (omega arith),
)
new_rows-IsTriangle n i k (row ∷ rows) h e =
    (h.0, new_rows-IsTriangle n (i + 1) k rows h.1 (omega arith))

pub length-new_rows : (n i : ℕ) → length (new_rows n i) ≡ n
unfolding new_rows
length-new_rows zero i = refl
length-new_rows (suc n) i = ap suc (length-new_rows n (i + 1))

new_row_empty : (n i k j : ℕ) → get_or (get_or (new_rows n i) k []) j no_link ≡ no_link
unfolding new_rows
new_row_empty zero i k j = refl
new_row_empty (suc n) i zero j = get_or-replicate (i + 1) no_link j
new_row_empty (suc n) i (suc k) j = new_row_empty n (i + 1) k j

-- Growth adds no link.
pub cell-new_rows :
    (rows : List (List Link)) (n i u v : ℕ)
    → is_linked (rows ++ new_rows n i) u v ≡ is_linked rows u v
unfolding cell
cell-new_rows [] n i u v = rw (new_row_empty n i u v)
cell-new_rows (row ∷ rows) n i zero v = refl
cell-new_rows (row ∷ rows) n i (suc u) v = cell-new_rows rows n i u v

-- A write changes the flag of its cell, where there is one, and of no other.
pub cell-set_cell :
    (rows : List (List Link)) (i j u v : ℕ) (link : Link)
    → is_linked (set_cell rows i j link) u v ≡ (
        if (i == u && j == v) && (ltb i (length rows) && ltb j (length (get_or rows i [])))
        then link.linked == 1
        else is_linked rows u v)
unfolding cell set_cell
cell-set_cell rows i j u v link = ground (
  arith,
  get_or-set rows i u (set (get_or rows i []) j link) [],
  get_or-set (get_or rows i []) j v link no_link,
)

-- A link that reads as joined lies inside the matrix.
linked_inside :
    (rows : List (List Link)) (i j : ℕ)
    → is_linked rows i j ≡ true
    → (i < length rows) × (j < length (get_or rows i []))
unfolding cell
linked_inside rows i j h =
    ground (arith, get_or_past rows i [], get_or_past (get_or rows i []) j no_link)

-- One round of a disjoin takes the link of its pair, and no other.
pub cell-disjoin_pair :
    (rows : List (List Link)) (idx i u v : ℕ)
    → is_linked (disjoin_pair rows idx i) u v ≡ (
        if (if ltb i idx then idx else i) - 1 == u && (if ltb i idx then i else idx) - 1 == v
        then false
        else is_linked rows u v)
unfolding disjoin_pair
cell-disjoin_pair rows idx i u v = elim (Bool-cases (ltb i idx)) [
  | inl less ↦ rw less (
      ground (
        arith,
        linked_inside rows (idx - 1) (i - 1),
        cell-set_cell rows (idx - 1) (i - 1) u v no_link,
      ))
  | inr more ↦ rw more (
      ground (
        arith,
        linked_inside rows (i - 1) (idx - 1),
        cell-set_cell rows (i - 1) (idx - 1) u v no_link,
      ))
]

disjoin_pair-IsTriangle :
    (rows : List (List Link)) (idx i : ℕ)
    → IsTriangle 0 rows
    → IsTriangle 0 (disjoin_pair rows idx i) × (length (disjoin_pair rows idx i) ≡ length rows)
unfolding disjoin_pair
disjoin_pair-IsTriangle rows idx i h =
    let x = if ltb i idx then idx else i in
    let y = if ltb i idx then i else idx in
    elim (Bool-cases ((cell rows (x - 1) (y - 1)).linked == 1)) [
      | inl was ↦ rw was (
        set_cell-IsTriangle rows (x - 1) (y - 1) no_link h,
        length-set_cell rows (x - 1) (y - 1) no_link,
      )
      | inr no_ ↦ rw no_ (h, refl)
    ]

pub disjoin_loop-IsTriangle :
    (n : ℕ) (rows : List (List Link)) (idx i : ℕ)
    → IsTriangle 0 rows
    → IsTriangle 0 (disjoin_loop n rows idx i) × (length (disjoin_loop n rows idx i) ≡ length rows)
unfolding disjoin_loop
disjoin_loop-IsTriangle zero rows idx i h = (h, refl)
disjoin_loop-IsTriangle (suc n) rows idx i h =
    let (h', e) = disjoin_pair-IsTriangle rows idx i h in
    let (h'', e') = disjoin_loop-IsTriangle n (disjoin_pair rows idx i) idx (i + 1) h' in
    (h'', e' ∙ e)

-- The rounds `i` to `i + n - 1` take the links of node `idx` with those nodes. Cell `(u, v)` is that
-- of the nodes `u + 1` and `v + 1`.
abbrev pub touched : ℕ → ℕ → ℕ → ℕ → ℕ → Bool
touched n idx i u v =
    (u + 1 == idx && leb i (v + 1) && ltb (v + 1) (i + n))
    || (v + 1 == idx && leb i (u + 1) && ltb (u + 1) (i + n))

pub cell-disjoin_loop :
    (n : ℕ) (rows : List (List Link)) (idx i u v : ℕ)
    → 1 ≤ idx
    → 1 ≤ i
    → v ≤ u
    → is_linked (disjoin_loop n rows idx i) u v
      ≡ (if touched n idx i u v then false else is_linked rows u v)
unfolding disjoin_loop
cell-disjoin_loop zero rows idx i u v a b c = ground arith
cell-disjoin_loop (suc n) rows idx i u v a b c = ground (
  arith,
  cell-disjoin_loop n (disjoin_pair rows idx i) idx (i + 1) u v a (omega arith) c,
  cell-disjoin_pair rows idx i u v,
)
