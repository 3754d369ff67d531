-- ===== src/Mbuf/Laws.antt =====
-- A queue of buffers is first in, first out.
use netvirt.Prelude.{
  ℕ, ◌≡◌, refl, sym, ap, ◌∙◌, arith, ◌==◌, ◌||◌, true, false, List, [], ◌∷◌, ◌++◌, if◌then◌else◌,
  Bool-cases, inl, inr,
}
use netvirt.Links.{null, mem, distinct, update}
use netvirt.Mbuf.{Mbuf, mbuf_add}

-- From `p` the `next` fields lead through `xs` to null.
unfoldable pub Next : (ℕ → Mbuf) → ℕ → List ℕ → Type 0
Next h p [] = p ≡ null
Next h p (x ∷ xs) = (p ≡ x) × ((x == null) ≡ false) × Next h (h x).next xs

abbrev pub last : ℕ → List ℕ → ℕ
last x [] = x
last x (y ∷ ys) = last y ys

-- The queue with that head holds the distinct buffers `xs`, and the head points back to the last.
unfoldable pub Queue : (ℕ → Mbuf) → ℕ → List ℕ → Type 0
Queue h p [] = p ≡ null
Queue h p (x ∷ xs) = Next h p (x ∷ xs) × ((h x).prev ≡ last x xs) × (distinct (x ∷ xs) ≡ true)

pub Next-same :
    (h h' : ℕ → Mbuf) (p : ℕ) (xs : List ℕ)
    → Next h p xs
    → ((a : ℕ) → (h' a).next ≡ (h a).next)
    → Next h' p xs
unfolding Next
Next-same h h' p [] c same = c
Next-same h h' p (x ∷ xs) (e, nn, c) same =
    (e, nn, rw (same x) (Next-same h h' (h x).next xs c same))

pub last-mem : (x : ℕ) (xs : List ℕ) → mem (last x xs) (x ∷ xs) ≡ true
last-mem x [] = ground arith
last-mem x (y ∷ ys) = ground (arith, last-mem y ys)

-- A buffer that is not in the rest is not the last of it.
pub not_last : (x y : ℕ) (ys : List ℕ) → mem x (y ∷ ys) ≡ false → (x == last y ys) ≡ false
not_last x y ys out = elim (Bool-cases (x == last y ys)) [
  | inl same ↦
      let here : x ≡ last y ys = ground arith in
      absurd (cc (sym (last-mem y ys), ap (λ a. mem a (y ∷ ys)) here, out))
  | inr other ↦ other
]

-- One buffer more behind the last one.
pub Next-append :
    (h h' : ℕ → Mbuf) (p x m : ℕ) (xs : List ℕ)
    → Next h p (x ∷ xs)
    → distinct (x ∷ xs) ≡ true
    → mem m (x ∷ xs) ≡ false
    → (m == null) ≡ false
    → ((a : ℕ) → mem a (x ∷ xs) ≡ true → (h' a).next ≡ (if a == last x xs then m else (h a).next))
    → (h' m).next ≡ null
    → Next h' p ((x ∷ xs) ++ (m ∷ []))
unfolding Next
Next-append h h' p x m [] (e, nn, c) d new nm changed end =
    (e, nn, (changed x (ground arith) ∙ ground arith, nm, end))
Next-append h h' p x m (y ∷ ys) (e, nn, c) d new nm changed end =
    let step : (h' x).next ≡ (h x).next =
      changed x (ground arith) ∙ rw (not_last x y ys (ground arith)) refl in
    (
      e,
      nn,
      rw step (
          Next-append h h' (h x).next y m ys c (ground arith) (ground arith) nm
            (λ a i. changed a (ground arith)) end),
    )

pub last-append : (x m : ℕ) (xs : List ℕ) → last x (xs ++ (m ∷ [])) ≡ m
last-append x m [] = refl
last-append x m (y ∷ ys) = last-append y m ys

mem-append : (a m : ℕ) (xs : List ℕ) → mem a (xs ++ (m ∷ [])) ≡ (mem a xs || a == m)
mem-append a m [] = ground arith
mem-append a m (y ∷ ys) = ground (arith, mem-append a m ys)

pub distinct-append :
    (m : ℕ) (xs : List ℕ) → distinct xs ≡ true → mem m xs ≡ false → distinct (xs ++ (m ∷ [])) ≡ true
distinct-append m [] d new = refl
distinct-append m (y ∷ ys) d new = ground (arith, distinct-append m ys, mem-append y m ys)

pub differ : (a m : ℕ) (zs : List ℕ) → mem a zs ≡ true → mem m zs ≡ false → (a == m) ≡ false
differ a m zs i o = elim (Bool-cases (a == m)) [
  | inl same ↦ let here : a ≡ m = ground arith in absurd (cc (i, ap (λ b. mem b zs) here, o))
  | inr other ↦ other
]

module _ (h : ℕ → Mbuf) (x m : ℕ) (xs : List ℕ) (back : (h x).prev ≡ last x xs)
    (d : distinct (x ∷ xs) ≡ true) (new : mem m (x ∷ xs) ≡ false) (up : (x == null) ≡ false) where
  pub added-next :
      (a : ℕ)
      → mem a (x ∷ xs) ≡ true
      → ((mbuf_add h x m).0 a).next ≡ (if a == last x xs then m else (h a).next)
  unfolding mbuf_add update
  added-next a i =
      let x_m : (x == m) ≡ false = ground arith in
      let a_m : (a == m) ≡ false = differ a m (x ∷ xs) i new in
      let last_m : (last x xs == m) ≡ false = differ (last x xs) m (x ∷ xs) (last-mem x xs) new in
      rw (up, x_m, back) (ground arith)

  pub added-end : ((mbuf_add h x m).0 m).next ≡ null
  unfolding mbuf_add update
  added-end =
      let x_m : (x == m) ≡ false = ground arith in
      let m_x : (m == x) ≡ false = ground arith in
      let last_m : (last x xs == m) ≡ false = differ (last x xs) m (x ∷ xs) (last-mem x xs) new in
      let m_last : (m == last x xs) ≡ false = ground arith in rw (up, x_m, back) (ground arith)

  pub added-back : ((mbuf_add h x m).0 x).prev ≡ m
  unfolding mbuf_add update
  added-back = rw up (ground arith)
