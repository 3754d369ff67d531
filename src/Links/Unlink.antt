-- ===== src/Links/Unlink.antt =====
-- Taking a node out of a chain, and putting one in front.
use netvirt.Prelude.{
  ℕ, ◌≡◌, ◌≢◌, refl, true, false, List, [], ◌∷◌, arith, ◌==◌, ◌&&◌, not, if◌then◌else◌, Bool-cases,
  inl, inr,
}
use netvirt.Links.{null, mem, distinct, erase, Chain, Chain-same, next-mem, prev-mem}

-- The link fields after the neighbours of `s` have been joined.
abbrev pub next_without : (ℕ → ℕ) → (ℕ → ℕ) → ℕ → ℕ → ℕ
next_without next prev s a =
    if prev s == null then next a else if a == prev s then next s else next a

abbrev pub prev_without : (ℕ → ℕ) → (ℕ → ℕ) → ℕ → ℕ → ℕ
prev_without next prev s a =
    if next s == null then prev a else if a == next s then prev s else prev a

pub not-mem-erase : (a s : ℕ) (xs : List ℕ) → mem a xs ≡ false → mem a (erase s xs) ≡ false
not-mem-erase a s [] h = refl
not-mem-erase a s (x ∷ xs) h = ground (arith, not-mem-erase a s xs)

pub distinct-erase : (s : ℕ) (xs : List ℕ) → distinct xs ≡ true → distinct (erase s xs) ≡ true
distinct-erase s [] h = refl
distinct-erase s (x ∷ xs) h = ground (arith, distinct-erase s xs, not-mem-erase x s xs)

pub mem-erase :
    (a s : ℕ) (xs : List ℕ) → distinct xs ≡ true → mem a (erase s xs) ≡ (not (a == s) && mem a xs)
mem-erase a s [] h = ground arith
mem-erase a s (x ∷ xs) h = ground (arith, mem-erase a s xs)

-- The node behind `s` now follows the node before `s`.
Chain-skip :
    (next prev : ℕ → ℕ) (before s : ℕ) (xs : List ℕ)
    → Chain next prev s (next s) xs
    → prev s ≡ before
    → mem s xs ≡ false
    → mem before xs ≡ false
    → distinct xs ≡ true
    → Chain (next_without next prev s) (prev_without next prev s) before (next s) xs
Chain-skip next prev before s [] c b m o d = c
Chain-skip next prev before s (y ∷ ys) (e, nn, back, rest) b m o d =
    let n : next_without next prev s y ≡ next y = ground arith in
    (
      e,
      nn,
      ground arith,
      rw n (
          Chain-same next prev (next_without next prev s) (prev_without next prev s) y (next y) ys
            rest (λ a i. (ground arith, ground arith))),
    )

pub Chain-erase :
    (next prev : ℕ → ℕ) (before p s : ℕ) (xs : List ℕ)
    → Chain next prev before p xs
    → mem s xs ≡ true
    → distinct xs ≡ true
    → mem before xs ≡ false
    → Chain
        (next_without next prev s)
        (prev_without next prev s)
        before
        (if p == s then next s else p)
        (erase s xs)
Chain-erase next prev before p s [] c m d o = cc
Chain-erase next prev before p s (x ∷ xs) (e, nn, back, rest) m d o = elim (Bool-cases (x == s)) [
  | inl here ↦
      let eq : x ≡ s = ground arith in
      let eq' : p ≡ s = ground arith in
      let c : Chain next prev s (next s) xs = rw eq at rest in
      let k =
        Chain-skip next prev before s xs c (ground arith) (ground arith) (ground arith)
          (ground arith) in
      let t : (p == s) ≡ true = ground arith in rw (here, t) k
  | inr later ↦
      let ih =
        Chain-erase next prev x (next x) s xs rest (ground arith) (ground arith) (ground arith) in
      let i = next-mem next prev x (next x) s xs rest (ground arith) in
      let j = prev-mem next prev x (next x) s xs rest (ground arith) in
      let t : (p == s) ≡ false = ground arith in
      let n : next_without next prev s x ≡ (if next x == s then next s else next x) =
        ground arith in
      rw (later, t) (e, nn, ground arith, rw n ih)
]

-- A new node in front of a chain that starts the list.
pub Chain-cons :
    (next prev : ℕ → ℕ) (p s : ℕ) (xs : List ℕ)
    → Chain next prev null p xs
    → s ≢ null
    → mem s xs ≡ false
    → distinct xs ≡ true
    → Chain
        (λ a. if a == s then p else next a)
        (λ a. if a == p then s else if a == s then null else prev a)
        null
        s
        (s ∷ xs)
Chain-cons next prev p s [] c nn m d = ground arith
Chain-cons next prev p s (x ∷ xs) (e, nx, back, rest) nn m d =
    let next' : ℕ → ℕ = λ a. if a == s then p else next a in
    let prev' : ℕ → ℕ = λ a. if a == p then s else if a == s then null else prev a in
    let n : next' x ≡ next x = ground arith in
    let c : Chain next' prev' x (next x) xs =
      Chain-same next prev next' prev' x (next x) xs rest (λ a i. (ground arith, ground arith)) in
    (refl, nn, ground arith, (ground arith, nx, ground arith, rw n c))

-- No node of a chain is its own neighbour.
pub neighbour_ne :
    (next prev : ℕ → ℕ) (before p s : ℕ) (xs : List ℕ)
    → Chain next prev before p xs
    → mem s xs ≡ true
    → distinct xs ≡ true
    → mem before xs ≡ false
    → (next s ≢ s) × (prev s ≢ s)
neighbour_ne next prev before p s [] c m d o = cc
neighbour_ne next prev before p s (x ∷ []) (e, nn, back, rest) m d o = ground arith
neighbour_ne next prev before p s (x ∷ y ∷ xs) (e, nn, back, rest) m d o =
    elim (Bool-cases (s == x)) [
      | inl here ↦ let n = rest.0 in ground arith
      | inr later ↦
          neighbour_ne next prev x (next x) s (y ∷ xs) rest (ground arith) (ground arith)
            (ground arith)
    ]
