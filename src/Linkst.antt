-- ===== src/Linkst.antt =====
-- nvswitch/src/linkst.c: which pairs of nodes have been introduced to one another, as the lower
-- triangle of a matrix that grows on demand. Indices are counted from 1. A `linkst_t *` is an
-- `Option`, whose `none` is NULL. Allocation is taken to succeed.
pub mod Cells
pub mod Inv
pub mod Laws
pub mod History
use netvirt.Prelude.{
  ℕ, zero, suc, ◌+◌, ◌-◌, ◌%◌, ℤ, pos, minus_one, List, [], ◌∷◌, ◌++◌, Option, none, some, ◌==◌,
  ltb, leb, if◌then◌else◌, ◌||◌, get_or, set, replicate,
}
use netvirt.Prelude.Bytes.{u32_mod}

-- `linkinfo_t`
pub record Link : Type 0 where
  pub linked : ℕ
  pub timestamp : ℕ

-- What `calloc` gives.
abbrev pub no_link : Link
no_link = record { linked = 0; timestamp = 0 }

-- `struct linkst`
pub record Linkst : Type 0 where
  pub adjacency_matrix : List (List Link)
  pub matrix_size : ℕ
  pub upper_limit : ℕ
  pub timeout_sec : ℕ

-- `adjacency_matrix[i][j]`; out of bounds a read gives the empty link and a write does nothing.
unfoldable pub cell : List (List Link) → ℕ → ℕ → Link
cell rows i j = get_or (get_or rows i []) j no_link

unfoldable pub set_cell : List (List Link) → ℕ → ℕ → Link → List (List Link)
set_cell rows i j link = set rows i (set (get_or rows i []) j link)

-- The loop of `linkst_resize`: rows `i`, `i + 1`, … of `i + 1` links each.
unfoldable pub new_rows : ℕ → ℕ → List (List Link)
new_rows zero i = []
new_rows (suc left) i = replicate (i + 1) no_link ∷ new_rows left (i + 1)

-- How many rows `linkst_resize` adds.
unfoldable pub growth : Linkst → ℕ → ℕ
growth l resize_size =
    if ltb ((l.matrix_size + resize_size + 5) % u32_mod) l.upper_limit
    then (resize_size + 5) % u32_mod
    else (l.upper_limit + u32_mod - l.matrix_size) % u32_mod

unfoldable pub linkst_resize : Linkst → ℕ → Linkst
linkst_resize l resize_size =
    let n = growth l resize_size in
    record l {
      adjacency_matrix = l.adjacency_matrix ++ new_rows n l.matrix_size;
      matrix_size = (l.matrix_size + n) % u32_mod;
    }

-- One round of the loop of `linkst_disjoin`, on the pair of `idx` and `i`.
unfoldable pub disjoin_pair : List (List Link) → ℕ → ℕ → List (List Link)
disjoin_pair rows idx i =
    let x = if ltb i idx then idx else i in
    let y = if ltb i idx then i else idx in
    if (cell rows (x - 1) (y - 1)).linked == 1 then set_cell rows (x - 1) (y - 1) no_link else rows

-- `for (i = 1; i <= linkst->matrix_size; i++)` with the rounds left.
unfoldable pub disjoin_loop : ℕ → List (List Link) → ℕ → ℕ → List (List Link)
disjoin_loop zero rows idx i = rows
disjoin_loop (suc left) rows idx i = disjoin_loop left (disjoin_pair rows idx i) idx (i + 1)

unfoldable pub linkst_disjoin : Option Linkst → ℕ → ℤ × Option Linkst
linkst_disjoin none idx = (minus_one, none)
linkst_disjoin (some l) idx = if ltb idx 1 || ltb l.matrix_size idx then (minus_one, some l) else (
  pos 0,
  some (record l { adjacency_matrix = disjoin_loop l.matrix_size l.adjacency_matrix idx 1 }),
)

unfoldable pub linkst_joined : Option Linkst → ℕ → ℕ → ℤ
linkst_joined none idx_a idx_b = minus_one
linkst_joined (some l) idx_a idx_b =
    if ltb idx_a 1 || ltb l.matrix_size idx_a || ltb idx_b 1 || ltb l.matrix_size idx_b
    then minus_one
    else let x = if ltb idx_b idx_a then idx_a else idx_b in
      let y = if ltb idx_b idx_a then idx_b else idx_a in
      if (cell l.adjacency_matrix (x - 1) (y - 1)).linked == 1 then pos 1 else pos 0

-- The matrix as `linkst_join` finds it when it writes row `x - 1`.
unfoldable pub grown : Linkst → ℕ → Linkst
grown l x =
    if leb l.matrix_size x then linkst_resize l ((x + u32_mod - l.matrix_size) % u32_mod) else l

-- `now` is what `time` stores.
unfoldable pub linkst_join : ℕ → Option Linkst → ℕ → ℕ → ℤ × Option Linkst
linkst_join now none idx_a idx_b = (minus_one, none)
linkst_join now (some l) idx_a idx_b =
    if ltb idx_a 1 || ltb l.upper_limit idx_a || ltb idx_b 1 || ltb l.upper_limit idx_b
    then (minus_one, some l)
    else let x = if ltb idx_b idx_a then idx_a else idx_b in
      let y = if ltb idx_b idx_a then idx_b else idx_a in
      let l' = grown l x in
      let joined : Link = record { linked = 1; timestamp = now } in
      (
        pos 0,
        some (record l' { adjacency_matrix = set_cell l'.adjacency_matrix (x - 1) (y - 1) joined }),
      )

unfoldable pub linkst_new : ℕ → ℕ → Option Linkst
linkst_new upper_limit timeout_sec = some (record {
  adjacency_matrix = [];
  matrix_size = 0;
  upper_limit = upper_limit;
  timeout_sec = timeout_sec;
})
