-- ===== src/Links.antt =====
-- Doubly linked lists of C structs: a pointer is a number, `null` is 0, and a heap is seen through
-- its two link fields.
pub mod Unlink
use netvirt.Prelude.{
  ℕ, zero, suc, ◌≡◌, ◌≢◌, refl, Bool, true, false, List, [], ◌∷◌, arith, ◌==◌, ◌||◌, ◌&&◌, not,
  if◌then◌else◌,
}

abbrev pub null : ℕ
null = 0

abbrev pub mem : ℕ → List ℕ → Bool
mem a [] = false
mem a (x ∷ xs) = a == x || mem a xs

abbrev pub distinct : List ℕ → Bool
distinct [] = true
distinct (x ∷ xs) = not (mem x xs) && distinct xs

pub ne_of_mem : (a b : ℕ) (xs : List ℕ) → mem a xs ≡ true → mem b xs ≡ false → a ≢ b
ne_of_mem a b xs m o e = let t = rw e at m in cc

-- The list without a pointer.
abbrev pub erase : ℕ → List ℕ → List ℕ
erase s [] = []
erase s (x ∷ xs) = if x == s then xs else x ∷ erase s xs

-- `*p = v`
unfoldable pub update {ℓ} : {A : Type ℓ} → (ℕ → A) → ℕ → A → ℕ → A
update h p v q = if q == p then v else h q

-- From `p` the `next` fields lead through `xs` to null, and the `prev` fields lead back to `before`.
abbrev pub Chain : (ℕ → ℕ) → (ℕ → ℕ) → ℕ → ℕ → List ℕ → Type 0
Chain next prev before p [] = p ≡ null
Chain next prev before p (x ∷ xs) =
    (p ≡ x) × (x ≢ null) × (prev x ≡ before) × Chain next prev x (next x) xs

-- A chain survives any change that spares the links of its own nodes.
pub Chain-same :
    (next prev next' prev' : ℕ → ℕ) (before p : ℕ) (xs : List ℕ)
    → Chain next prev before p xs
    → ((a : ℕ) → mem a xs ≡ true → (next' a ≡ next a) × (prev' a ≡ prev a))
    → Chain next' prev' before p xs
Chain-same next prev next' prev' before p [] c same = c
Chain-same next prev next' prev' before p (x ∷ xs) (e, nn, back, rest) same =
    let (n, b) = same x (ground arith) in
    (
      e,
      nn,
      ground arith,
      rw n (Chain-same next prev next' prev' x (next x) xs rest (λ a m. same a (ground arith))),
    )

-- The links of a node of the chain stay inside, or lead to its ends.
pub next-mem :
    (next prev : ℕ → ℕ) (before p s : ℕ) (xs : List ℕ)
    → Chain next prev before p xs
    → mem s xs ≡ true
    → (next s == null || mem (next s) xs) ≡ true
next-mem next prev before p s [] c m = cc
next-mem next prev before p s (x ∷ []) (e, nn, back, rest) m = ground arith
next-mem next prev before p s (x ∷ y ∷ xs) (e, nn, back, rest) m =
    ground (arith, next-mem next prev x (next x) s (y ∷ xs) rest, rest.0)

pub prev-mem :
    (next prev : ℕ → ℕ) (before p s : ℕ) (xs : List ℕ)
    → Chain next prev before p xs
    → mem s xs ≡ true
    → (if p == s then prev s == before else mem (prev s) xs) ≡ true
prev-mem next prev before p s [] c m = cc
prev-mem next prev before p s (x ∷ xs) (e, nn, back, rest) m =
    ground (arith, prev-mem next prev x (next x) s xs rest)
