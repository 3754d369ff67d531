-- ===== src/Dnds/Access/Laws.antt =====
-- When the checks of an accessor pass, and reading back what has been written through them.
use netvirt.Prelude.{
  ℕ, ◌==◌, ◌≡◌, refl, leb, take, length, List, [], ◌∷◌, ap, arith, true, Option, some,
}
use netvirt.Dnds.Types.{
  Str, ObjectChoice, DndsObject, DnChoice, DsChoice, DnMessage, DsMessage, DndsMessage, DnopPr,
  DsopPr, ObjectPr, Code, success,
}
use netvirt.Dnds.Unions.{as_dnm, as_dsm, pdu_index, dnop_index, dsop_index, object_index}
use netvirt.Dnds.Members.{Member}
use netvirt.Dnds.Access.{
  Reply, reply, written, reach, at_message, if_tag, at_dnm, at_dsm, at_any_pdu, at_dnop, at_dsop,
  set_dn, get_dn, set_prov, get_prov, set_ds, get_ds, at_object, set_object_or, get_object, put_dn,
  put_ds, bytes_of, AddressText, address_in, ntop,
}

module _ {R : Type 0} (member : Member DnopPr DnChoice R) where
  -- The message holds a `DNMessage`, and that one the member.
  unfoldable pub ReadyDn : DndsMessage → Type 0
  ReadyDn m =
      (d : DnMessage) × (r : R) × ((pdu_index m.present == 1) ≡ true)
      × (as_dnm m.choice ≡ some d)
      × ((dnop_index d.present == dnop_index member.tag) ≡ true)
      × (member.view d.choice ≡ some r)

module _ {R V : Type 0} (member : Member DnopPr DnChoice R) (m : DndsMessage) (f : R → Reply R)
    (g : R → Reply (Option V)) (x : V) where
  pub set_dn-get_dn :
      ReadyDn member m
      → ((r : R) → (r' : R) × (f r ≡ reply success r') × (g r' ≡ reply success (some x)))
      → (m' : DndsMessage) × (set_dn member (some m) f ≡ reply success (some m'))
        × ReadyDn member m'
        × (get_dn member (some m') g ≡ reply success (some x))
  unfolding ReadyDn written reach at_message if_tag at_dnm at_dnop set_dn get_dn put_dn
  set_dn-get_dn (d, r, pdu, at_d, op, at_r) step =
      let (r', ends, got) = step r in
      (
        put_dn m d (record d { choice = member.make r' }),
        rw (pdu, at_d, op, at_r, ends) refl,
        (_, r', pdu, refl, op, member.view-make r'),
        rw (pdu, op, member.view-make r', got) refl,
      )

module _ {R : Type 0} (member : Member DsopPr DsChoice R) where
  -- The message holds a `DSMessage`, and that one the member.
  unfoldable pub ReadyDs : DndsMessage → Type 0
  ReadyDs m =
      (d : DsMessage) × (r : R) × ((pdu_index m.present == 2) ≡ true)
      × (as_dsm m.choice ≡ some d)
      × ((dsop_index d.present == dsop_index member.tag) ≡ true)
      × (member.view d.choice ≡ some r)

module _ {R V : Type 0} (member : Member DsopPr DsChoice R) (m : DndsMessage) (f : R → Reply R)
    (g : R → Reply (Option V)) (x : V) where
  pub set_ds-get_ds :
      ReadyDs member m
      → ((r : R) → (r' : R) × (f r ≡ reply success r') × (g r' ≡ reply success (some x)))
      → (m' : DndsMessage) × (set_ds member (some m) f ≡ reply success (some m'))
        × ReadyDs member m'
        × (get_ds member (some m') g ≡ reply success (some x))
  unfolding ReadyDs written reach at_message if_tag at_dsm at_dsop set_ds get_ds put_ds
  set_ds-get_ds (d, r, pdu, at_d, op, at_r) step =
      let (r', ends, got) = step r in
      (
        put_ds m d (record d { choice = member.make r' }),
        rw (pdu, at_d, op, at_r, ends) refl,
        (_, r', pdu, refl, op, member.view-make r'),
        rw (pdu, op, member.view-make r', got) refl,
      )

module _ {R : Type 0} (member : Member DnopPr DnChoice R) where
  -- The same with any tag of the PDU.
  unfoldable pub ReadyProv : DndsMessage → Type 0
  ReadyProv m =
      (d : DnMessage) × (r : R) × (as_dnm m.choice ≡ some d)
      × ((dnop_index d.present == dnop_index member.tag) ≡ true)
      × (member.view d.choice ≡ some r)

module _ {R V : Type 0} (member : Member DnopPr DnChoice R) (m : DndsMessage) (f : R → Reply R)
    (g : R → Reply (Option V)) (x : V) where
  pub set_prov-get_prov :
      ReadyProv member m
      → ((r : R) → (r' : R) × (f r ≡ reply success r') × (g r' ≡ reply success (some x)))
      → (m' : DndsMessage) × (set_prov member (some m) f ≡ reply success (some m'))
        × ReadyProv member m'
        × (get_prov member (some m') g ≡ reply success (some x))
  unfolding ReadyProv written reach at_message if_tag at_any_pdu at_dnop set_prov get_prov put_dn
  set_prov-get_prov (d, r, at_d, op, at_r) step =
      let (r', ends, got) = step r in
      (
        put_dn m d (record d { choice = member.make r' }),
        rw (at_d, op, at_r, ends) refl,
        (_, r', refl, op, member.view-make r'),
        rw (op, member.view-make r', got) refl,
      )

leb_refl : (n : ℕ) → leb n n ≡ true
leb_refl n = ground arith

take-length : (s : List ℕ) → take (length s) s ≡ s
take-length [] = refl
take-length (x ∷ xs) = ap (λ ys. x ∷ ys) (take-length xs)

pub bytes_of-length : (s : List ℕ) → bytes_of (length s) s ≡ some s
bytes_of-length s = rw (leb_refl (length s), take-length s) refl

module _ (text : AddressText) where
  pub address_in-inet_pton :
      (s b : List ℕ) (old : Str)
      → text.inet_pton s ≡ some b
      → address_in text s old ≡ reply success (record { buf = some b; size = 4 })
  unfolding address_in
  address_in-inet_pton s b old e = rw (address_in, e) refl

  pub ntop-inet_ntop :
      (s b : List ℕ) → text.inet_ntop b ≡ some s → ntop text b ≡ reply success (some s)
  unfolding ntop
  ntop-inet_ntop s b e = rw (ntop, e) refl

module _ {R : Type 0} (member : Member ObjectPr ObjectChoice R) where
  -- The object holds the member.
  unfoldable pub ReadyObject : DndsObject → Type 0
  ReadyObject o =
      (r : R) × ((object_index o.present == object_index member.tag) ≡ true)
      × (member.view o.choice ≡ some r)

module _ {R V : Type 0} (member : Member ObjectPr ObjectChoice R) (o : DndsObject) (refusal : Code)
    (f : R → Reply R) (g : R → Reply (Option V)) (x : V) where
  pub set_object-get_object :
      ReadyObject member o
      → ((r : R) → (r' : R) × (f r ≡ reply success r') × (g r' ≡ reply success (some x)))
      → (o' : DndsObject) × (set_object_or member (some o) refusal f ≡ reply success (some o'))
        × ReadyObject member o'
        × (get_object member (some o') g ≡ reply success (some x))
  unfolding ReadyObject written reach if_tag at_object set_object_or get_object
  set_object-get_object (r, op, at_r) step =
      let (r', ends, got) = step r in
      (
        _,
        rw (op, at_r, ends) refl,
        (r', op, member.view-make r'),
        rw (op, member.view-make r', got) refl,
      )
