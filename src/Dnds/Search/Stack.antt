-- ===== src/Dnds/Search/Stack.antt =====
-- Taking the last object of a list.
use netvirt.Prelude.{
  ℕ, refl, arith, ◌+◌, ◌-◌, ◌==◌, ◌≡◌, length, get_or, false, List, [], ◌∷◌, ◌++◌, Option, some,
}
use netvirt.Links.{null}
use netvirt.Dnds.Types.{DndsMessage, success}
use netvirt.Dnds.Access.{reply}
use netvirt.Prelude.{length-append, get_or-append}
use netvirt.Dnds.Search.{AsnSet, take_last}

module _ (sets : AsnSet) (msg : Option DndsMessage) (put : List ℕ → DndsMessage) where
  pub take_last-append :
      (xs : List ℕ) (x : ℕ)
      → take_last sets msg (xs ++ (x ∷ [])) put ≡ reply success (some (put xs), some x)
  unfolding take_last
  take_last-append xs x =
      let size : length (xs ++ (x ∷ [])) ≡ length xs + 1 =
        omega (arith, length-append xs (x ∷ [])) in
      let last : get_or (xs ++ (x ∷ [])) (length xs) null ≡ x =
        rw (get_or-append xs (x ∷ []) (length xs) null) (ground arith) in
      let some_left : (length xs + 1 == 0) ≡ false = ground arith in
      let back : length xs + 1 - 1 ≡ length xs = omega arith in
      rw (size, some_left, back, sets.del_last xs x, last) refl

pub append_nonempty : (xs : List ℕ) (x : ℕ) → [] ≡ xs ++ (x ∷ []) → ⊥
append_nonempty [] x e = cc
append_nonempty (y ∷ ys) x e = cc
