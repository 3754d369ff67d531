-- ===== src/Linkst/History.antt =====
-- Any history of calls against the plain relation that it stands for.
use netvirt.Prelude.{
  ℕ, ◌+◌, ◌<◌, ◌≡◌, refl, Bool, false, List, [], ◌∷◌, arith, ◌==◌, ltb, leb, if◌then◌else◌, ◌&&◌,
  ◌||◌, Option, some, Bool-cases, inl, inr, ap, ◌∙◌,
}
use netvirt.Prelude.Bytes.{u32_mod}
use netvirt.Linkst.{Linkst, linkst_join, linkst_disjoin, linkst_new, linkst_joined}
use netvirt.Linkst.Inv.{
  IsValid, grown-IsGrown, linkst_new-IsValid, join-IsValid, disjoin-IsValid, out_of_range,
}
use netvirt.Linkst.Laws.{
  is_joined, same_pair, joined-join, joined-disjoin, join_in_range, join_out_of_range, after_join,
  after_join-is_joined, disjoin_some,
}

-- A call on the link state.
pub data Call : Type 0 where
  join : (now idx_a idx_b : ℕ) → Call
  disjoin : ℕ → Call

unfoldable pub run : Option Linkst → List Call → Option Linkst
run l [] = l
run l (join now a b ∷ calls) = run (linkst_join now l a b).1 calls
run l (disjoin idx ∷ calls) = run (linkst_disjoin l idx).1 calls

-- Which pairs are joined: the specification knows nothing of a matrix or of its size.
abbrev pub Pairs : Type 0
Pairs = ℕ → ℕ → Bool

abbrev pub within : ℕ → ℕ → Bool
within upper_limit a = leb 1 a && leb a upper_limit

unfoldable pub note : ℕ → Call → Pairs → Pairs
note upper_limit (join now a b) r c d =
    (within upper_limit a && within upper_limit b && same_pair a b c d) || r c d
note upper_limit (disjoin idx) r c d = if leb 1 idx && (c == idx || d == idx) then false else r c d

unfoldable pub replay : ℕ → Pairs → List Call → Pairs
replay upper_limit r [] = r
replay upper_limit r (call ∷ calls) = replay upper_limit (note upper_limit call r) calls

pub record Shows (upper_limit : ℕ) (l : Linkst) (r : Pairs) : Type 0 where
  pub valid : IsValid l
  pub limit : l.upper_limit ≡ upper_limit
  pub pairs : (c d : ℕ) → is_joined (some l) c d ≡ r c d

abbrev pub Shown : ℕ → Option Linkst → Pairs → Type 0
Shown upper_limit o r = (l : Linkst) × (o ≡ some l) × Shows upper_limit l r

module _ (upper_limit : ℕ) where
  join-Shows :
      (now a b : ℕ) {l : Linkst} {r : Pairs}
      → Shows upper_limit l r
      → Shown upper_limit (linkst_join now (some l) a b).1 (note upper_limit (join now a b) r)
  unfolding note
  join-Shows now a b {l} {r} h = elim (Bool-cases (out_of_range l a b)) [
    | inl bad ↦
        let (_, same) = joined-join now l a b h.valid in
        (
          l,
          ap (λ p. p.1) (join_out_of_range now l a b bad),
          record {
            valid = h.valid;
            limit = h.limit;
            pairs = λ c d. ground (arith, h.limit, h.pairs c d);
          },
        )
    | inr good ↦
        let v = rw (join_in_range now l a b good) at (join-IsValid now (some l) a b h.valid) in
        let g = grown-IsGrown l (if ltb b a then a else b) h.valid (ground arith) in
        (
          after_join now l a b,
          ap (λ p. p.1) (join_in_range now l a b good),
          record {
            valid = v;
            limit = g.limit ∙ h.limit;
            pairs = λ c d.
                rw (after_join-is_joined now l a b c d h.valid good)
                  (ground (arith, h.limit, h.pairs c d));
          },
        )
  ]

  disjoin-Shows :
      (idx : ℕ) {l : Linkst} {r : Pairs}
      → Shows upper_limit l r
      → Shown upper_limit (linkst_disjoin (some l) idx).1 (note upper_limit (disjoin idx) r)
  unfolding note
  disjoin-Shows idx {l} {r} h =
      let (_, pairs) = joined-disjoin l idx h.valid in
      let v = disjoin-IsValid (some l) idx h.valid in
      let (l', e, limit) = disjoin_some l idx in
      (
        l',
        e,
        record {
          valid = rw e at v;
          limit = limit ∙ h.limit;
          pairs = λ c d. let t = rw e at (pairs c d) in ground (arith, h.pairs c d);
        },
      )

  run-Shows :
      (calls : List Call) {l : Linkst} {r : Pairs}
      → Shows upper_limit l r
      → Shown upper_limit (run (some l) calls) (replay upper_limit r calls)
  unfolding run replay
  run-Shows [] {l} h = (l, refl, h)
  run-Shows (join now a b ∷ calls) h =
      let (l', e, h') = join-Shows now a b h in rw e (run-Shows calls h')
  run-Shows (disjoin idx ∷ calls) h =
      let (l', e, h') = disjoin-Shows idx h in rw e (run-Shows calls h')

  -- After any calls on a new link state, with a limit that leaves room for the growth by five,
  -- `linkst_joined` returns 1 for exactly the pairs that the plain history of joins within the
  -- limit and of disjoins leaves, whatever the matrix has grown to, at whatever times the joins
  -- were, and whatever limit of seconds the link state was made with: no link ever expires.
  pub run_refines :
      (timeout_sec : ℕ) (calls : List Call)
      → upper_limit + 5 < u32_mod
      → (c d : ℕ)
      → is_joined (run (linkst_new upper_limit timeout_sec) calls) c d
        ≡ replay upper_limit (λ c d. false) calls c d
  unfolding linkst_new linkst_joined
  run_refines timeout_sec calls h c d =
      let start : Linkst = record {
        adjacency_matrix = [];
        matrix_size = 0;
        upper_limit = upper_limit;
        timeout_sec = timeout_sec;
      } in
      let v : Shows upper_limit start (λ c d. false) = record {
        valid = linkst_new-IsValid upper_limit timeout_sec h;
        limit = refl;
        pairs = λ c d. ground arith;
      } in
      let (l', e, s) = run-Shows calls v in rw e (s.pairs c d)
