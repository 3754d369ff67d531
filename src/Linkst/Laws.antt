-- ===== src/Linkst/Laws.antt =====
-- What a client of the link state sees: `linkst_joined` after a join and after a disjoin.
use netvirt.Prelude.{
  ℕ, ◌-◌, ◌≤◌, ◌<◌, ◌≡◌, refl, Bool, true, false, List, [], arith, ◌==◌, ltb, leb, if◌then◌else◌,
  ◌&&◌, ◌||◌, length, get_or, Bool-cases, inl, inr, Option, some, none, get_or_past, not, pos,
  minus_one, is_one,
}
use netvirt.Linkst.{
  Link, Linkst, cell, set_cell, disjoin_loop, grown, linkst_disjoin, linkst_join, linkst_joined,
}
use netvirt.Linkst.Cells.{is_linked, length-row, cell-set_cell, cell-disjoin_loop}
use netvirt.Linkst.Inv.{IsValid, grown-IsGrown, out_of_range, join-IsValid, disjoin-IsValid}

-- Whether `linkst_joined` returns 1.
abbrev pub is_joined : Option Linkst → ℕ → ℕ → Bool
is_joined l c d = is_one (linkst_joined l c d)

-- The flag of the cell that stands for the pair of `c` and `d`.
abbrev pub pair_linked : List (List Link) → ℕ → ℕ → Bool
pair_linked rows c d =
    is_linked rows ((if ltb d c then c else d) - 1) ((if ltb d c then d else c) - 1)

unlinked_past : (rows : List (List Link)) (i j : ℕ) → length rows ≤ i → is_linked rows i j ≡ false
unfolding cell
unlinked_past rows i j h = rw (get_or_past rows i [] h)

pub is_joined-pair :
    (l : Linkst) (c d : ℕ)
    → IsValid l
    → is_joined (some l) c d ≡ (leb 1 c && leb 1 d && pair_linked l.adjacency_matrix c d)
unfolding linkst_joined
is_joined-pair l c d v = ground (
  arith,
  v.size,
  unlinked_past l.adjacency_matrix ((if ltb d c then c else d) - 1)
      ((if ltb d c then d else c) - 1),
)

abbrev pub same_pair : ℕ → ℕ → ℕ → ℕ → Bool
same_pair a b c d = (a == c && b == d) || (a == d && b == c)

pair_position :
    (a b c d : ℕ)
    → 1 ≤ a
    → 1 ≤ b
    → 1 ≤ c
    → 1 ≤ d
    → ((if ltb b a then a else b) - 1 == (if ltb d c then c else d) - 1
        && (if ltb b a then b else a) - 1 == (if ltb d c then d else c) - 1)
      ≡ same_pair a b c d
pair_position a b c d ha hb hc hd = ground arith

set_pair :
    (l : Linkst) (now a b c d : ℕ)
    → IsValid l
    → 1 ≤ a
    → 1 ≤ b
    → 1 ≤ c
    → 1 ≤ d
    → (if ltb b a then a else b) ≤ l.matrix_size
    → pair_linked
        (set_cell l.adjacency_matrix
          ((if ltb b a then a else b) - 1)
          ((if ltb b a then b else a) - 1)
          (record { linked = 1; timestamp = now }))
        c
        d
      ≡ (same_pair a b c d || pair_linked l.adjacency_matrix c d)
set_pair l now a b c d v ha hb hc hd h =
    let x = if ltb b a then a else b in
    let y = if ltb b a then b else a in
    let lt : x - 1 < length l.adjacency_matrix = ground (arith, v.size) in
    let lt' : y - 1 < length (get_or l.adjacency_matrix (x - 1) []) =
      ground (arith, length-row 0 l.adjacency_matrix (x - 1) v.rows lt) in
    rw cell-set_cell (rw (pair_position a b c d ha hb hc hd) (ground arith))

-- The state that a join within the limit leaves.
abbrev pub after_join : ℕ → Linkst → ℕ → ℕ → Linkst
after_join now l a b =
    let x = if ltb b a then a else b in
    let y = if ltb b a then b else a in
    record (grown l x) {
      adjacency_matrix =
          set_cell (grown l x).adjacency_matrix (x - 1) (y - 1)
            (record { linked = 1; timestamp = now });
    }

pub join_in_range :
    (now : ℕ) (l : Linkst) (a b : ℕ)
    → out_of_range l a b ≡ false
    → linkst_join now (some l) a b ≡ (pos 0, some (after_join now l a b))
unfolding linkst_join
join_in_range now l a b h = rw h

pub join_out_of_range :
    (now : ℕ) (l : Linkst) (a b : ℕ)
    → out_of_range l a b ≡ true
    → linkst_join now (some l) a b ≡ (minus_one, some l)
unfolding linkst_join
join_out_of_range now l a b h = rw h

-- A disjoin keeps the limit.
pub disjoin_some :
    (l : Linkst) (idx : ℕ)
    → (l' : Linkst) × ((linkst_disjoin (some l) idx).1 ≡ some l') × (l'.upper_limit ≡ l.upper_limit)
unfolding linkst_disjoin
disjoin_some l idx = elim (Bool-cases (ltb idx 1 || ltb l.matrix_size idx)) [
  | inl bad ↦ (l, rw bad, refl)
  | inr good ↦ (
    record l { adjacency_matrix = disjoin_loop l.matrix_size l.adjacency_matrix idx 1 },
    rw good,
    refl,
  )
]

pub after_join-is_joined :
    (now : ℕ) (l : Linkst) (a b c d : ℕ)
    → IsValid l
    → out_of_range l a b ≡ false
    → is_joined (some (after_join now l a b)) c d ≡ (same_pair a b c d || is_joined (some l) c d)
after_join-is_joined now l a b c d v h =
    let x = if ltb b a then a else b in
    let g = grown-IsGrown l x v (ground arith) in
    let v' : IsValid (after_join now l a b) =
      rw (join_in_range now l a b h) at (join-IsValid now (some l) a b v) in
    rw (is_joined-pair (after_join now l a b) c d v', is_joined-pair l c d v)
      (elim (Bool-cases (leb 1 c && leb 1 d)) [
        | inr low ↦ ground arith
        | inl high ↦
            let t =
              set_pair (grown l x) now a b c d g.valid (ground arith) (ground arith) (ground arith)
                (ground arith) g.reaches in
            let e = g.links ((if ltb d c then c else d) - 1) ((if ltb d c then d else c) - 1) in
            ground arith
      ])

-- In a well-formed link state, after a join of two nodes within the limit, which returns 0,
-- exactly the pairs joined before and that pair, in either order, read as joined; a join outside
-- the limit returns -1 and every pair reads as before. Neither the time of the join nor the time
-- that has passed since, nor the limit of seconds in the link state, has a part in what is read.
pub joined-join :
    (now : ℕ) (l : Linkst) (a b : ℕ)
    → IsValid l
    → let (code, l') = linkst_join now (some l) a b in
      (code ≡ (if out_of_range l a b then minus_one else pos 0))
      × ((c d : ℕ)
          → is_joined l' c d
            ≡ ((not (out_of_range l a b) && same_pair a b c d) || is_joined (some l) c d))
unfolding linkst_join
joined-join now l a b v = elim (Bool-cases (out_of_range l a b)) [
  | inl bad ↦ rw bad (refl, λ c d. refl)
  | inr good ↦
      rw (join_in_range now l a b good, good)
        (refl, λ c d. after_join-is_joined now l a b c d v good)
]

after_disjoin-is_joined :
    (l : Linkst) (idx c d : ℕ)
    → IsValid l
    → (ltb idx 1 || ltb l.matrix_size idx) ≡ false
    → is_joined
        (some (record l { adjacency_matrix = disjoin_loop l.matrix_size l.adjacency_matrix idx 1 }))
        c
        d
      ≡ (if leb 1 idx && (c == idx || d == idx) then false else is_joined (some l) c d)
unfolding linkst_disjoin
after_disjoin-is_joined l idx c d v good =
    let l' : Linkst = record l {
      adjacency_matrix = disjoin_loop l.matrix_size l.adjacency_matrix idx 1;
    } in
    let v' : IsValid l' = rw good at (disjoin-IsValid (some l) idx v) in
    let u = (if ltb d c then c else d) - 1 in
    let w = (if ltb d c then d else c) - 1 in
    rw (is_joined-pair l' c d v', is_joined-pair l c d v)
      (elim (Bool-cases (leb 1 c && leb 1 d)) [
        | inr low ↦ ground arith
        | inl high ↦
            let t =
              cell-disjoin_loop l.matrix_size l.adjacency_matrix idx 1 u w (ground arith)
                (omega arith) (ground arith) in
            let p = unlinked_past l.adjacency_matrix u w in let e = v.size in ground arith
      ])

-- In a well-formed link state, after a disjoin of a node of the matrix, which returns 0, no pair
-- with that node reads as joined, and every other pair reads as before; for any other index it
-- returns -1 and every pair reads as before (a node past the matrix was joined with none).
pub joined-disjoin :
    (l : Linkst) (idx : ℕ)
    → IsValid l
    → let (code, l') = linkst_disjoin (some l) idx in
      (code ≡ (if ltb idx 1 || ltb l.matrix_size idx then minus_one else pos 0))
      × ((c d : ℕ)
          → is_joined l' c d
            ≡ (if leb 1 idx && (c == idx || d == idx) then false else is_joined (some l) c d))
unfolding linkst_disjoin linkst_joined
joined-disjoin l idx v = elim (Bool-cases (ltb idx 1 || ltb l.matrix_size idx)) [
  | inl bad ↦ rw bad (refl, λ c d. ground arith)
  | inr good ↦ rw good (refl, λ c d. after_disjoin-is_joined l idx c d v good)
]

-- `linkst_joined` returns the same for a pair in either order.
pub joined_comm : (l : Option Linkst) (c d : ℕ) → linkst_joined l c d ≡ linkst_joined l d c
unfolding linkst_joined
joined_comm none c d = refl
joined_comm (some l) c d = ground arith
