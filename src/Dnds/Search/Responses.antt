-- ===== src/Dnds/Search/Responses.antt =====
-- The list of objects of a search response, as a stack.
use netvirt.Prelude.{
  ℕ, refl, ap, ◌∙◌, ◌%◌, ◌==◌, ◌≡◌, length, true, false, List, [], ◌∷◌, ◌++◌, none, some,
}
use netvirt.Prelude.Bytes.{u32_mod}
use netvirt.Links.{null}
use netvirt.Dnds.Types.{
  SearchResponse, DsChoice, DsMessage, PduChoice, DndsMessage, success, value_not_present,
}
use netvirt.Dnds.Unions.{as_dsm, pdu_index, dsop_index}
use netvirt.Dnds.Members.{search_response_member}
use netvirt.Dnds.Access.{
  reply, written, out_given, reach, at_message, if_tag, at_dsm, put_ds, at_dsop, set_ds, get_ds,
}
use netvirt.Dnds.Search.{
  AsnSet, take_last, search_response_add_object, search_response_get_object,
  search_response_get_object_count,
}
use netvirt.Dnds.Search.Stack.{take_last-append}

-- The list of objects of a search response.
unfoldable pub ResponseHolds : DndsMessage → List ℕ → Type 0
ResponseHolds m xs =
    (d : DsMessage) × (r : SearchResponse) × ((pdu_index m.present == 2) ≡ true)
    × (as_dsm m.choice ≡ some d)
    × ((dsop_index d.present == dsop_index search_response_member.tag) ≡ true)
    × (search_response_member.view d.choice ≡ some r)
    × (r.objects ≡ xs)

module _ (sets : AsnSet) where
  response_add :
      (m : DndsMessage) (xs : List ℕ) (x : ℕ)
      → (x == null) ≡ false
      → ResponseHolds m xs
      → (m' : DndsMessage) × (search_response_add_object sets (some m) x ≡ reply success (some m'))
        × ResponseHolds m' (xs ++ (x ∷ []))
  unfolding ResponseHolds written reach at_message if_tag at_dsm at_dsop set_ds put_ds
      search_response_add_object
  response_add m xs x set (d, r, pdu, at_d, op, at_r, objects) =
      let ys = sets.asn_set_add (r.objects) x in
      (
        record m {
          choice =
              PduChoice.dsm
                (record d { choice = DsChoice.search_response (record r { objects = ys }) });
        },
        rw (set, pdu, at_d, op, at_r) refl,
        (
          _,
          _,
          pdu,
          refl,
          op,
          refl,
          sets.add_at_end (r.objects) x ∙ ap (λ zs. zs ++ (x ∷ [])) objects,
        ),
      )

  response_get :
      (m : DndsMessage) (xs : List ℕ) (x : ℕ)
      → ResponseHolds m (xs ++ (x ∷ []))
      → (m' : DndsMessage) × (search_response_get_object sets (some m) true
          ≡ reply success (some m', some x))
        × ResponseHolds m' xs
  unfolding ResponseHolds reach at_message if_tag at_dsm at_dsop put_ds search_response_get_object
  response_get m xs x (d, r, pdu, at_d, op, at_r, objects) = (
    record m {
      choice =
          PduChoice.dsm
            (record d { choice = DsChoice.search_response (record r { objects = xs }) });
    },
    rw (pdu, at_d, op, at_r, objects) (rw (take_last-append sets _ _ xs x) refl),
    (_, _, pdu, refl, op, refl, refl),
  )

  response_get_empty :
      (m : DndsMessage)
      → ResponseHolds m []
      → search_response_get_object sets (some m) true ≡ reply value_not_present (some m, none)
  unfolding ResponseHolds reach at_message if_tag at_dsm at_dsop put_ds take_last
      search_response_get_object
  response_get_empty m (d, r, pdu, at_d, op, at_r, objects) = rw (pdu, at_d, op, at_r, objects) refl

response_count :
    (m : DndsMessage) (xs : List ℕ)
    → ResponseHolds m xs
    → search_response_get_object_count (some m) true ≡ reply success (some (length xs % u32_mod))
unfolding ResponseHolds out_given reach at_message if_tag at_dsm at_dsop get_ds
    search_response_get_object_count
response_count m xs (d, r, pdu, at_d, op, at_r, objects) = rw (pdu, at_d, op, at_r, objects) refl

module _ (sets : AsnSet) where
  -- The objects of a search response are a stack. Of a message that holds the list `xs`, the number of
  -- objects is the length of `xs` modulo 2 ^ 32, and an object that is not NULL can be put on it,
  -- after which taking one gives that object and leaves `xs`. A message that holds no object answers
  -- `value_not_present` and stays as it is.
  pub response-IsStack :
      (m empty : DndsMessage) (xs : List ℕ) (x : ℕ)
      → (x == null) ≡ false
      → ResponseHolds m xs
      → ResponseHolds empty []
      → (search_response_get_object_count (some m) true
          ≡ reply success (some (length xs % u32_mod)))
        × (search_response_get_object sets (some empty) true
            ≡ reply value_not_present (some empty, none))
        × (m' : DndsMessage) × (m'' : DndsMessage) × (search_response_add_object sets (some m) x
            ≡ reply success (some m'))
        × ResponseHolds m' (xs ++ (x ∷ []))
        × (search_response_get_object sets (some m') true ≡ reply success (some m'', some x))
        × ResponseHolds m'' xs
  response-IsStack m empty xs x set holds no_objects =
      let (m', added, holds') = response_add sets m xs x set holds in
      let (m'', got, holds'') = response_get sets m' xs x holds' in
      (
        response_count m xs holds,
        response_get_empty sets empty no_objects,
        m',
        m'',
        added,
        holds',
        got,
        holds'',
      )
