-- ===== src/Dnds/Access/Refusals.antt =====
-- What an accessor answers when one of the checks before it fails.
use netvirt.Prelude.{
  ℕ, ◌==◌, ◌≡◌, refl, sym, List, ap, ◌∙◌, Bool-cases, ◌⊎◌, inl, inr, Option, none, some,
  Option-cases,
}
use netvirt.Dnds.Types.{
  Str, DnChoice, DsChoice, DnMessage, DsMessage, DndsMessage, DnopPr, DsopPr, Code, success,
  alloc_failed, invalid_pdu, invalid_op, conversion_failed,
}
use netvirt.Dnds.Unions.{as_dnm, as_dsm, pdu_index, dnop_index, dsop_index}
use netvirt.Dnds.Members.{Member}
use netvirt.Dnds.Access.{
  Reply, reply, wild, written, reach, at_message, if_tag, at_dnm, at_dsm, at_any_pdu, at_dnop,
  at_dsop, set_dn, set_prov, set_ds, put_dn, put_ds, copied, bytes_of, AddressText, address_in,
}

Reply-cases {ℓ} :
    {A : Type ℓ} (r : Reply A) → (r ≡ wild) ⊎ ((code : Code) × (a : A) × (r ≡ reply code a))
Reply-cases (reply code a) = inr (code, a, refl)
Reply-cases wild = inl refl

code_or : {A : Type 0} → Reply A → Code
code_or (reply code a) = code
code_or wild = alloc_failed

value_or : {A : Type 0} → A → Reply A → A
value_or d (reply code a) = a
value_or d wild = d

pub reply_code : {A : Type 0} {c c' : Code} {a b : A} → reply c a ≡ reply c' b → c ≡ c'
unfolding code_or
reply_code e = ap code_or e

pub reply_value : {A : Type 0} {c c' : Code} {a b : A} → reply c a ≡ reply c' b → a ≡ b
unfolding value_or
reply_value {a = a} e = ap (value_or a) e

some_or : {A : Type 0} → A → Option A → A
some_or d none = d
some_or d (some a) = a

pub some_inj : {A : Type 0} {a b : A} → some a ≡ some b → a ≡ b
unfolding some_or
some_inj {a = a} e = ap (some_or a) e

clash : {A : Type 0} (c : Code) (a b : A) → reply c a ≡ reply success b → (c ≡ success → ⊥) → ⊥
clash c a b e bad = bad (reply_code e)

no_reply : {A : Type 0} (c : Code) (a : A) → wild ≡ reply c a → ⊥
no_reply c a e = cc

-- What the code of a change is that goes through.
unfoldable pub Succeeds : Code → Type 0
Succeeds code = code ≡ success

-- What the code of a change of an address is that goes through.
unfoldable pub Converts : AddressText → List ℕ → Code → Type 0
Converts text s code = (code ≡ success) ⊎ ((code ≡ conversion_failed) × (text.inet_pton s ≡ none))

-- The code of a change of a member is as it is said to be.
unfoldable pub Unchecked : {R : Type 0} → (Code → Type 0) → (R → Reply R) → Type 0
Unchecked {R} P f = (r r' : R) (code : Code) → f r ≡ reply code r' → P code

copied-Succeeds : (n : ℕ) (s : List ℕ) (c : Code) (a : Str) → copied n s ≡ reply c a → Succeeds c
unfolding copied reach Succeeds
copied-Succeeds n s c a e = elim (Option-cases (bytes_of n s)) [
  | inl short ↦ absurd (no_reply _ _ (rw (copied, short) at e))
  | inr (bytes, enough) ↦ sym (reply_code (rw (copied, enough) at e))
]

address_in-Converts :
    (text : AddressText) (s : List ℕ) (old : Str) (c : Code) (a : Str)
    → address_in text s old ≡ reply c a
    → Converts text s c
unfolding address_in Converts
address_in-Converts text s old c a e = elim (Option-cases (text.inet_pton s)) [
  | inl bad ↦ inr (sym (reply_code (rw (address_in, bad) at e)), bad)
  | inr (bytes, good) ↦ inl (sym (reply_code (rw (address_in, good) at e)))
]

module _ {R A : Type 0} (f : R → A → R) where
  pub pure-Unchecked : (a : A) → Unchecked Succeeds (λ r. reply success (f r a))
  unfolding Unchecked Succeeds
  pure-Unchecked a r r' code e = sym (reply_code e)

  written-Unchecked :
      (P : Code → Type 0) (r r' : R) (code : Code) (given : Reply A)
      → ((c : Code) (a : A) → given ≡ reply c a → P c)
      → written given (f r) ≡ reply code r'
      → P code
  unfolding written
  written-Unchecked P r r' code wild passes e = absurd (no_reply _ _ e)
  written-Unchecked P r r' code (reply c a) passes e = rw (← reply_code e) (passes c a refl)

module _ {R : Type 0} (f : R → Str → R) where
  pub copied-Unchecked : (n : ℕ) (s : List ℕ) → Unchecked Succeeds (λ r. written (copied n s) (f r))
  unfolding Unchecked
  copied-Unchecked n s r r' code e =
      written-Unchecked f Succeeds r r' code _ (λ c a. copied-Succeeds n s c a) e

  pub address-Unchecked :
      (text : AddressText) (s : List ℕ) (old : R → Str)
      → Unchecked (Converts text s) (λ r. written (address_in text s (old r)) (f r))
  unfolding Unchecked
  address-Unchecked text s old r r' code e =
      written-Unchecked f (Converts text s) r r' code _
        (λ c a. address_in-Converts text s (old r) c a) e

-- The message is as it was, and the code says which check has failed.
unfoldable pub Refuses : DndsMessage → Code → Option DndsMessage → Type 0
Refuses m code m' = (m' ≡ some m) × ((code ≡ invalid_pdu) ⊎ (code ≡ invalid_op))

module _ {R : Type 0} (member : Member DnopPr DnChoice R) (m : DndsMessage)
    (m' : Option DndsMessage) (P : Code → Type 0) (f : R → Reply R) (code : Code) where
  pub set_dn-Refuses :
      Unchecked P f → set_dn member (some m) f ≡ reply code m' → P code ⊎ Refuses m code m'
  unfolding Unchecked Refuses written reach at_message if_tag at_dnm at_dnop set_dn put_dn
  set_dn-Refuses unchecked e = elim (Bool-cases (pdu_index m.present == 1)) [
    | inr other ↦ let got = rw other at e in inr (sym (reply_value got), inl (sym (reply_code got)))
    | inl pdu ↦ elim (Option-cases (as_dnm m.choice)) [
      | inl bytes ↦ absurd (no_reply _ _ (rw (pdu, bytes) at e))
      | inr (d, at_d) ↦ elim (Bool-cases (dnop_index d.present == dnop_index member.tag)) [
        | inr other ↦
            let got = rw (pdu, at_d, other) at e in
            inr (sym (reply_value got), inr (sym (reply_code got)))
        | inl op ↦ elim (Option-cases (member.view d.choice)) [
          | inl bytes ↦ absurd (no_reply _ _ (rw (pdu, at_d, op, bytes) at e))
          | inr (r, at_r) ↦ elim (Reply-cases (f r)) [
            | inl ends ↦ absurd (no_reply _ _ (rw (pdu, at_d, op, at_r, ends) at e))
            | inr (c, r', ends) ↦ inl (
                unchecked r r' code
                  (ends ∙ ap (λ k. reply k r') (reply_code (rw (pdu, at_d, op, at_r, ends) at e))))
          ]
        ]
      ]
    ]
  ]

module _ {R : Type 0} (member : Member DsopPr DsChoice R) (m : DndsMessage)
    (m' : Option DndsMessage) (P : Code → Type 0) (f : R → Reply R) (code : Code) where
  pub set_ds-Refuses :
      Unchecked P f → set_ds member (some m) f ≡ reply code m' → P code ⊎ Refuses m code m'
  unfolding Unchecked Refuses written reach at_message if_tag at_dsm at_dsop set_ds put_ds
  set_ds-Refuses unchecked e = elim (Bool-cases (pdu_index m.present == 2)) [
    | inr other ↦ let got = rw other at e in inr (sym (reply_value got), inl (sym (reply_code got)))
    | inl pdu ↦ elim (Option-cases (as_dsm m.choice)) [
      | inl bytes ↦ absurd (no_reply _ _ (rw (pdu, bytes) at e))
      | inr (d, at_d) ↦ elim (Bool-cases (dsop_index d.present == dsop_index member.tag)) [
        | inr other ↦
            let got = rw (pdu, at_d, other) at e in
            inr (sym (reply_value got), inr (sym (reply_code got)))
        | inl op ↦ elim (Option-cases (member.view d.choice)) [
          | inl bytes ↦ absurd (no_reply _ _ (rw (pdu, at_d, op, bytes) at e))
          | inr (r, at_r) ↦ elim (Reply-cases (f r)) [
            | inl ends ↦ absurd (no_reply _ _ (rw (pdu, at_d, op, at_r, ends) at e))
            | inr (c, r', ends) ↦ inl (
                unchecked r r' code
                  (ends ∙ ap (λ k. reply k r') (reply_code (rw (pdu, at_d, op, at_r, ends) at e))))
          ]
        ]
      ]
    ]
  ]

module _ {R : Type 0} (member : Member DnopPr DnChoice R) (m : DndsMessage)
    (m' : Option DndsMessage) (P : Code → Type 0) (f : R → Reply R) (code : Code) where
  pub set_prov-Refuses :
      Unchecked P f → set_prov member (some m) f ≡ reply code m' → P code ⊎ Refuses m code m'
  unfolding Unchecked Refuses written reach at_message if_tag at_any_pdu at_dnop set_prov put_dn
  set_prov-Refuses unchecked e = elim (Option-cases (as_dnm m.choice)) [
    | inl bytes ↦ absurd (no_reply _ _ (rw (bytes) at e))
    | inr (d, at_d) ↦ elim (Bool-cases (dnop_index d.present == dnop_index member.tag)) [
      | inr other ↦
          let got = rw (at_d, other) at e in inr (sym (reply_value got), inr (sym (reply_code got)))
      | inl op ↦ elim (Option-cases (member.view d.choice)) [
        | inl bytes ↦ absurd (no_reply _ _ (rw (at_d, op, bytes) at e))
        | inr (r, at_r) ↦ elim (Reply-cases (f r)) [
          | inl ends ↦ absurd (no_reply _ _ (rw (at_d, op, at_r, ends) at e))
          | inr (c, r', ends) ↦ inl (
              unchecked r r' code
                (ends ∙ ap (λ k. reply k r') (reply_code (rw (at_d, op, at_r, ends) at e))))
        ]
      ]
    ]
  ]

module _ (m : DndsMessage) (m' : Option DndsMessage) (code : Code) where
  -- A change that needs a `DNMessage`, and one that needs a `DSMessage`.
  pub at_dnm-Refuses :
      (g : DndsMessage → DnMessage → DndsMessage)
      → at_dnm (some m) (some m) (λ n d. reply success (some (g n d))) ≡ reply code m'
      → Succeeds code ⊎ Refuses m code m'
  unfolding Succeeds Refuses reach at_message if_tag at_dnm
  at_dnm-Refuses g e = elim (Bool-cases (pdu_index m.present == 1)) [
    | inr other ↦ let got = rw other at e in inr (sym (reply_value got), inl (sym (reply_code got)))
    | inl pdu ↦ elim (Option-cases (as_dnm m.choice)) [
      | inl bytes ↦ absurd (no_reply _ _ (rw (pdu, bytes) at e))
      | inr (d, at_d) ↦ inl (sym (reply_code (rw (pdu, at_d) at e)))
    ]
  ]

  pub at_dsm-Refuses :
      (g : DndsMessage → DsMessage → DndsMessage)
      → at_dsm (some m) (some m) (λ n d. reply success (some (g n d))) ≡ reply code m'
      → Succeeds code ⊎ Refuses m code m'
  unfolding Succeeds Refuses reach at_message if_tag at_dsm
  at_dsm-Refuses g e = elim (Bool-cases (pdu_index m.present == 2)) [
    | inr other ↦ let got = rw other at e in inr (sym (reply_value got), inl (sym (reply_code got)))
    | inl pdu ↦ elim (Option-cases (as_dsm m.choice)) [
      | inl bytes ↦ absurd (no_reply _ _ (rw (pdu, bytes) at e))
      | inr (d, at_d) ↦ inl (sym (reply_code (rw (pdu, at_d) at e)))
    ]
  ]
