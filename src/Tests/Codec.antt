-- ===== src/Tests/Codec.antt =====
-- A codec of addresses and a set of objects that meet the interfaces of the accessors.
use netvirt.Dnds.Access.Refusals.{some_inj}
use netvirt.Prelude.{
  ℕ, ◌≡◌, refl, zero, suc, sym, ap, ◌∙◌, arith, ◌==◌, List, [], ◌∷◌, ◌++◌, length, if◌then◌else◌,
  Option, none, some, inr, inl, Bool-cases,
}
use netvirt.Dnds.Access.{AddressText}
use netvirt.Dnds.Search.{AsnSet}

-- The text of an address is its four bytes.
abbrev pub four : List ℕ → Option (List ℕ)
four s = if length s == 4 then some s else none

pub four-length : (s b : List ℕ) → four s ≡ some b → length b ≡ 4
four-length s b e = elim (Bool-cases (length s == 4)) [
  | inl is_four ↦ ap length (sym (some_inj (rw is_four at e))) ∙ ground arith
  | inr other ↦ absurd (cc (rw other at e))
]

pub four-four : (b : List ℕ) → length b ≡ 4 → (s : List ℕ) × (four b ≡ some s) × (four s ≡ some b)
four-four b e = (b, rw e refl, rw e refl)

abbrev pub inet : AddressText
inet = record {
  inet_pton = four;
  inet_ntop = four;
  inet_pton-length = four-length;
  inet_pton-inet_ntop = four-four;
}

abbrev pub remove : List ℕ → ℕ → List ℕ
remove [] i = []
remove (x ∷ xs) zero = xs
remove (x ∷ xs) (suc i) = x ∷ remove xs i

pub remove-last : (xs : List ℕ) (x : ℕ) → remove (xs ++ (x ∷ [])) (length xs) ≡ xs
remove-last [] x = refl
remove-last (y ∷ ys) x = ap (λ zs. y ∷ zs) (remove-last ys x)

abbrev pub sets : AsnSet
sets = record {
  asn_set_add = λ xs x. xs ++ (x ∷ []);
  asn_set_del = remove;
  add_at_end = λ xs x. refl;
  del_last = remove-last;
}
