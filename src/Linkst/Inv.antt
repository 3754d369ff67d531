-- ===== src/Linkst/Inv.antt =====
-- The shape of the matrix, and that every operation keeps it.
use netvirt.Prelude.{
  ℕ, ◌+◌, ◌-◌, ◌%◌, ◌≤◌, ◌<◌, ◌≡◌, refl, Bool, arith, ltb, leb, if◌then◌else◌, ◌||◌, length,
  length-append, Bool-cases, inl, inr, Option, some, none,
}
use netvirt.Prelude.Bytes.{u32_mod}
use netvirt.Linkst.{
  Link, Linkst, new_rows, growth, linkst_resize, grown, linkst_disjoin, linkst_join, linkst_new,
}
use netvirt.Linkst.Cells.{
  is_linked, IsTriangle, set_cell-IsTriangle, length-set_cell, new_rows-IsTriangle, length-new_rows,
  cell-new_rows, disjoin_loop-IsTriangle,
}

pub record IsValid (l : Linkst) : Type 0 where
  pub rows : IsTriangle 0 l.adjacency_matrix
  pub size : length l.adjacency_matrix ≡ l.matrix_size
  pub bounded : l.matrix_size ≤ l.upper_limit
  pub word : l.upper_limit + 5 < u32_mod

abbrev pub IsValid? : Option Linkst → Type 0
IsValid? none = Unit
IsValid? (some l) = IsValid l

-- Growth reaches row `x`, keeps the limit, and adds no link.
pub record IsGrown (l : Linkst) (x : ℕ) (l' : Linkst) : Type 0 where
  pub valid : IsValid l'
  pub reaches : x ≤ l'.matrix_size
  pub limit : l'.upper_limit ≡ l.upper_limit
  pub links : (u v : ℕ) → is_linked l'.adjacency_matrix u v ≡ is_linked l.adjacency_matrix u v

growth_lem :
    (l : Linkst) (x : ℕ)
    → IsValid l
    → l.matrix_size ≤ x
    → x ≤ l.upper_limit
    → let n = growth l ((x + u32_mod - l.matrix_size) % u32_mod) in
      (x ≤ l.matrix_size + n) × (l.matrix_size + n ≤ l.upper_limit)
unfolding growth
growth_lem l x v low high = ground arith

pub grown-IsGrown : (l : Linkst) (x : ℕ) → IsValid l → x ≤ l.upper_limit → IsGrown l x (grown l x)
unfolding grown linkst_resize
grown-IsGrown l x v high = elim (Bool-cases (leb l.matrix_size x)) [
  | inr inside ↦
      rw inside (record { valid = v; reaches = ground arith; limit = refl; links = λ u w. refl })
  | inl outside ↦
      let n = growth l ((x + u32_mod - l.matrix_size) % u32_mod) in
      let g = growth_lem l x v (ground arith) high in
      rw outside (record {
        valid = record {
          rows =
              new_rows-IsTriangle n 0 l.matrix_size l.adjacency_matrix v.rows
                (omega (arith, v.size));
          size = omega (
            arith,
            v.size,
            v.word,
            length-append l.adjacency_matrix (new_rows n l.matrix_size),
            length-new_rows n l.matrix_size,
          );
          bounded = omega (arith, v.word);
          word = v.word;
        };
        reaches = omega (arith, v.word);
        limit = refl;
        links = λ u w. cell-new_rows l.adjacency_matrix n l.matrix_size u w;
      })
]

pub linkst_new-IsValid :
    (upper_limit timeout_sec : ℕ)
    → upper_limit + 5 < u32_mod
    → IsValid? (linkst_new upper_limit timeout_sec)
unfolding linkst_new
linkst_new-IsValid upper_limit timeout_sec h = record {
  rows = tt;
  size = refl;
  bounded = omega arith;
  word = h;
}

pub disjoin-IsValid : (l : Option Linkst) (idx : ℕ) → IsValid? l → IsValid? (linkst_disjoin l idx).1
unfolding linkst_disjoin
disjoin-IsValid none idx v = v
disjoin-IsValid (some l) idx v = elim (Bool-cases (ltb idx 1 || ltb l.matrix_size idx)) [
  | inl bad ↦ rw bad v
  | inr good ↦
      let (t, e) = disjoin_loop-IsTriangle l.matrix_size l.adjacency_matrix idx 1 v.rows in
      rw good
        (record { rows = t; size = omega (arith, v.size); bounded = v.bounded; word = v.word })
]

-- The indices that `linkst_join` accepts.
abbrev pub out_of_range : Linkst → ℕ → ℕ → Bool
out_of_range l a b = ltb a 1 || ltb l.upper_limit a || ltb b 1 || ltb l.upper_limit b

pub join-IsValid :
    (now : ℕ) (l : Option Linkst) (a b : ℕ) → IsValid? l → IsValid? (linkst_join now l a b).1
unfolding linkst_join
join-IsValid now none a b v = v
join-IsValid now (some l) a b v = elim (Bool-cases (out_of_range l a b)) [
  | inl bad ↦ rw bad v
  | inr good ↦
      let x = if ltb b a then a else b in
      let y = if ltb b a then b else a in
      let g = grown-IsGrown l x v (ground arith) in
      let link : Link = record { linked = 1; timestamp = now } in
      rw good (record {
        rows = set_cell-IsTriangle (grown l x).adjacency_matrix (x - 1) (y - 1) link g.valid.rows;
        size = omega (
          arith,
          length-set_cell (grown l x).adjacency_matrix (x - 1) (y - 1) link,
          g.valid.size,
        );
        bounded = g.valid.bounded;
        word = g.valid.word;
      })
]
