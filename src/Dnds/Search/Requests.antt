-- ===== src/Dnds/Search/Requests.antt =====
-- The list of objects of a search request, as a stack.
use netvirt.Prelude.{
  ℕ, refl, ap, ◌∙◌, ◌%◌, ◌==◌, ◌≡◌, length, true, false, List, [], ◌∷◌, ◌++◌, none, some,
}
use netvirt.Prelude.Bytes.{u32_mod}
use netvirt.Links.{null}
use netvirt.Dnds.Types.{
  SearchRequest, DsChoice, DsMessage, PduChoice, DndsMessage, success, value_not_present,
}
use netvirt.Dnds.Unions.{as_dsm, pdu_index, dsop_index}
use netvirt.Dnds.Members.{search_request_member}
use netvirt.Dnds.Access.{
  reply, written, out_given, reach, at_message, if_tag, at_dsm, put_ds, at_dsop, set_ds, get_ds,
}
use netvirt.Prelude.{Option-cases, inl, inr}
use netvirt.Dnds.Search.{
  AsnSet, objects_of, take_last, search_request_add_to_objects, search_request_get_from_objects,
  search_request_get_object_count,
}
use netvirt.Dnds.Search.Stack.{take_last-append, append_nonempty}

-- The list of objects of a search request.
unfoldable pub RequestHolds : DndsMessage → List ℕ → Type 0
RequestHolds m xs =
    (d : DsMessage) × (r : SearchRequest) × ((pdu_index m.present == 2) ≡ true)
    × (as_dsm m.choice ≡ some d)
    × ((dsop_index d.present == dsop_index search_request_member.tag) ≡ true)
    × (search_request_member.view d.choice ≡ some r)
    × (objects_of r.objects ≡ xs)

module _ (sets : AsnSet) where
  request_add :
      (m : DndsMessage) (xs : List ℕ) (x : ℕ)
      → (x == null) ≡ false
      → RequestHolds m xs
      → (m' : DndsMessage) × (search_request_add_to_objects sets (some m) x
          ≡ reply success (some m'))
        × RequestHolds m' (xs ++ (x ∷ []))
  unfolding RequestHolds written reach at_message if_tag at_dsm at_dsop set_ds put_ds
      search_request_add_to_objects
  request_add m xs x set (d, r, pdu, at_d, op, at_r, objects) =
      let ys = sets.asn_set_add (objects_of r.objects) x in
      (
        record m {
          choice =
              PduChoice.dsm
                (record d { choice = DsChoice.search_request (record r { objects = some ys }) });
        },
        rw (set, pdu, at_d, op, at_r) refl,
        (
          _,
          _,
          pdu,
          refl,
          op,
          refl,
          sets.add_at_end (objects_of r.objects) x ∙ ap (λ zs. zs ++ (x ∷ [])) objects,
        ),
      )

  request_get :
      (m : DndsMessage) (xs : List ℕ) (x : ℕ)
      → RequestHolds m (xs ++ (x ∷ []))
      → (m' : DndsMessage) × (search_request_get_from_objects sets (some m) true
          ≡ reply success (some m', some x))
        × RequestHolds m' xs
  unfolding RequestHolds reach at_message if_tag at_dsm at_dsop put_ds
      search_request_get_from_objects
  request_get m xs x (d, r, pdu, at_d, op, at_r, objects) = elim (Option-cases r.objects) [
    | inl none_yet ↦ absurd (append_nonempty xs x (rw none_yet at objects))
    | inr (ys, at_ys) ↦
        let same : ys ≡ xs ++ (x ∷ []) = rw at_ys at objects in
        (
          record m {
            choice =
                PduChoice.dsm
                  (record d { choice = DsChoice.search_request (record r { objects = some xs }) });
          },
          rw (pdu, at_d, op, at_r, at_ys, same) (rw (take_last-append sets _ _ xs x) refl),
          (_, _, pdu, refl, op, refl, refl),
        )
  ]

  request_get_empty :
      (m : DndsMessage)
      → RequestHolds m []
      → search_request_get_from_objects sets (some m) true ≡ reply value_not_present (some m, none)
  unfolding RequestHolds reach at_message if_tag at_dsm at_dsop put_ds take_last
      search_request_get_from_objects
  request_get_empty m (d, r, pdu, at_d, op, at_r, objects) = elim (Option-cases r.objects) [
    | inl none_yet ↦ rw (pdu, at_d, op, at_r, none_yet) refl
    | inr (ys, at_ys) ↦
        let same : ys ≡ [] = rw at_ys at objects in rw (pdu, at_d, op, at_r, at_ys, same) refl
  ]

request_count :
    (m : DndsMessage) (xs : List ℕ)
    → RequestHolds m xs
    → search_request_get_object_count (some m) true ≡ reply success (some (length xs % u32_mod))
unfolding RequestHolds out_given reach at_message if_tag at_dsm at_dsop get_ds
    search_request_get_object_count
request_count m xs (d, r, pdu, at_d, op, at_r, objects) = rw (pdu, at_d, op, at_r, objects) refl

module _ (sets : AsnSet) where
  -- The objects of a search request are a stack. Of a message that holds the list `xs`, the number of
  -- objects is the length of `xs` modulo 2 ^ 32, and an object that is not NULL can be put on it,
  -- after which taking one gives that object and leaves `xs`. A message that holds no object answers
  -- `value_not_present` and stays as it is.
  pub request-IsStack :
      (m empty : DndsMessage) (xs : List ℕ) (x : ℕ)
      → (x == null) ≡ false
      → RequestHolds m xs
      → RequestHolds empty []
      → (search_request_get_object_count (some m) true ≡ reply success (some (length xs % u32_mod)))
        × (search_request_get_from_objects sets (some empty) true
            ≡ reply value_not_present (some empty, none))
        × (m' : DndsMessage) × (m'' : DndsMessage) × (search_request_add_to_objects sets (some m) x
            ≡ reply success (some m'))
        × RequestHolds m' (xs ++ (x ∷ []))
        × (search_request_get_from_objects sets (some m') true ≡ reply success (some m'', some x))
        × RequestHolds m'' xs
  request-IsStack m empty xs x set holds no_objects =
      let (m', added, holds') = request_add sets m xs x set holds in
      let (m'', got, holds'') = request_get sets m' xs x holds' in
      (
        request_count m xs holds,
        request_get_empty sets empty no_objects,
        m',
        m'',
        added,
        holds',
        got,
        holds'',
      )
