-- ===== src/Dnds/Search.antt =====
-- The accessors of libnvcore/src/dnds.c for a search. A list of objects is an `asn_SET_OF`, whose
-- two functions that change it belong to the run-time library of asn1c and are parameters.
pub mod Stack
pub mod Requests
pub mod Responses
use netvirt.Prelude.{
  ℕ, zero, suc, ◌+◌, ◌-◌, ◌%◌, ◌==◌, ◌≡◌, ◌<◌, ltb, length, get_or, if◌then◌else◌, Bool, true,
  false, List, [], ◌∷◌, ◌++◌, take, Option, none, some,
}
use netvirt.Prelude.Bytes.{u32_mod}
use netvirt.Links.{null}
use netvirt.Dnds.Types.{
  Str, no_str, NetinfoRequest, NetinfoResponse, ProvResponse, P2pRequest, P2pResponse, NodeConnInfo,
  Client, Context, Node, ObjectChoice, DndsObject, SearchRequest, SearchResponse, DnChoice,
  DsChoice, DnMessage, DsMessage, PduChoice, DndsMessage, PduPr, DnopPr, DsopPr, ObjectPr, Code,
  no_pdu, dnm_pdu, dsm_pdu, ethernet_pdu, no_dnop, auth_request_op, auth_response_op,
  netinfo_request_op, netinfo_response_op, prov_request_op, prov_response_op, p2p_request_op,
  p2p_response_op, dn_terminate_op, no_dsop, add_request_op, add_response_op, del_request_op,
  del_response_op, modify_request_op, modify_response_op, node_conn_info_op, search_request_op,
  search_response_op, ds_terminate_op, no_object, client_pr, context_pr, node_pr, success,
  alloc_failed, invalid_param, invalid_pdu, invalid_op, invalid_object_type, value_not_present,
  conversion_failed,
}
use netvirt.Dnds.Unions.{
  as_dnm, as_dsm, as_ethernet, as_auth_request, as_auth_response, as_netinfo_request,
  as_netinfo_response, as_prov_request, as_prov_response, as_p2p_request, as_p2p_response,
  as_add_request, as_add_response, as_del_request, as_del_response, as_modify_request,
  as_modify_response, as_node_conn_info, as_search_request, as_search_response, as_client,
  as_context, as_node,
}
use netvirt.Dnds.Members.{
  auth_request_member, auth_response_member, netinfo_request_member, netinfo_response_member,
  prov_request_member, prov_response_member, p2p_request_member, p2p_response_member,
  add_request_member, add_response_member, del_request_member, del_response_member,
  modify_request_member, modify_response_member, node_conn_info_member, search_request_member,
  search_response_member, client_member, context_member, node_member,
}
use netvirt.Dnds.Access.{
  AddressText, Reply, reply, wild, written, given, out_given, out_used, reach, at_message, if_tag,
  at_dnm, at_dsm, at_any_pdu, put_dn, put_ds, at_dnop, at_dsop, set_dn, get_dn, set_prov, get_prov,
  set_ds, get_ds, at_object, set_object_or, set_object, get_object, strdup, copied, copy_out,
  present_or, address_in, ntop, address_out,
}

-- `asn_set_add` puts an element at the end of the array; `asn_set_del` takes out the one at an index.
pub record AsnSet : Type 0 where
  pub asn_set_add : List ℕ → ℕ → List ℕ
  pub asn_set_del : List ℕ → ℕ → List ℕ
  pub add_at_end : (xs : List ℕ) (x : ℕ) → asn_set_add xs x ≡ xs ++ (x ∷ [])
  pub del_last : (xs : List ℕ) (x : ℕ) → asn_set_del (xs ++ (x ∷ [])) (length xs) ≡ xs

unfoldable pub search_request_set_search_type : Option DndsMessage → ℕ → Reply (Option DndsMessage)
search_request_set_search_type msg v =
    set_ds search_request_member msg (λ r. reply success (record r { searchtype = v }))

unfoldable pub search_request_get_search_type : Option DndsMessage → Bool → Reply (Option ℕ)
search_request_get_search_type msg out =
    out_given out (get_ds search_request_member msg (λ r. reply success (some (r.searchtype))))

unfoldable pub search_request_set_object_name : Option DndsMessage → ℕ → Reply (Option DndsMessage)
search_request_set_object_name msg v =
    set_ds search_request_member msg (λ r. reply success (record r { objectname = some v }))

-- What there is, or 0.
abbrev pub or_zero : Option ℕ → ℕ
or_zero none = 0
or_zero (some v) = v

abbrev pub objects_of : Option (List ℕ) → List ℕ
objects_of none = []
objects_of (some xs) = xs

unfoldable pub search_request_get_object_name : Option DndsMessage → Bool → Reply (Option ℕ)
search_request_get_object_name msg out =
    out_given out
      (get_ds search_request_member msg (λ r. reply success (some (or_zero r.objectname))))

unfoldable pub search_request_set_object : Option DndsMessage → ℕ → Reply (Option DndsMessage)
search_request_set_object msg object =
    if object == null
    then reply invalid_param msg
    else set_ds search_request_member msg (λ r. reply success (record r { object = object }))

unfoldable pub search_request_get_object : Option DndsMessage → Bool → Reply (Option ℕ)
search_request_get_object msg out =
    out_given out (get_ds search_request_member msg (λ r. reply success (some r.object)))

unfoldable pub search_request_get_object_count : Option DndsMessage → Bool → Reply (Option ℕ)
search_request_get_object_count msg out = out_given out (
    get_ds search_request_member msg
      (λ r. reply success (some (length (objects_of r.objects) % u32_mod))))

unfoldable pub search_response_set_search_type : Option DndsMessage → ℕ → Reply (Option DndsMessage)
search_response_set_search_type msg v =
    set_ds search_response_member msg (λ r. reply success (record r { searchtype = v }))

unfoldable pub search_response_get_search_type : Option DndsMessage → Bool → Reply (Option ℕ)
search_response_get_search_type msg out =
    out_given out (get_ds search_response_member msg (λ r. reply success (some (r.searchtype))))

unfoldable pub search_response_set_result : Option DndsMessage → ℕ → Reply (Option DndsMessage)
search_response_set_result msg v =
    set_ds search_response_member msg (λ r. reply success (record r { dnds_result = v }))

unfoldable pub search_response_get_result : Option DndsMessage → Bool → Reply (Option ℕ)
search_response_get_result msg out =
    out_given out (get_ds search_response_member msg (λ r. reply success (some (r.dnds_result))))

unfoldable pub search_response_get_object_count : Option DndsMessage → Bool → Reply (Option ℕ)
search_response_get_object_count msg out =
    out_given out
      (get_ds search_response_member msg (λ r. reply success (some (length r.objects % u32_mod))))

-- The message and the object that has been taken out.
abbrev Taken : Type 0
Taken = Option DndsMessage × Option ℕ

module _ (sets : AsnSet) where
  open sets use {asn_set_add, asn_set_del}

  unfoldable pub search_request_add_to_objects : Option DndsMessage → ℕ → Reply (Option DndsMessage)
  search_request_add_to_objects msg object =
      if object == null
      then reply invalid_param msg
      else set_ds search_request_member msg (λ r.
        reply success (record r { objects = some (asn_set_add (objects_of r.objects) object) }))

  -- The last object of the list.
  unfoldable pub take_last : Option DndsMessage → List ℕ → (List ℕ → DndsMessage) → Reply Taken
  take_last msg xs put =
      if length xs == 0
      then reply value_not_present (msg, none)
      else reply success
          (some (put (asn_set_del xs (length xs - 1))), some (get_or xs (length xs - 1) null))

  unfoldable pub search_request_get_from_objects : Option DndsMessage → Bool → Reply Taken
  search_request_get_from_objects msg true =
      at_dsm (msg, none) msg
        (λ m d.
          at_dsop (msg, none) search_request_member d
            (λ r. elim r.objects [
              | none ↦ Reply.reply value_not_present (msg, none)
              | some xs ↦ take_last msg xs (λ ys.
                  put_ds m d (record d {
                    choice = DsChoice.search_request (record r { objects = some ys });
                  }))
            ]))
  search_request_get_from_objects msg false = reply invalid_param (msg, none)

  unfoldable pub search_response_add_object : Option DndsMessage → ℕ → Reply (Option DndsMessage)
  search_response_add_object msg object =
      if object == null
      then reply invalid_param msg
      else set_ds search_response_member msg
          (λ r. reply success (record r { objects = asn_set_add r.objects object }))

  unfoldable pub search_response_get_object : Option DndsMessage → Bool → Reply Taken
  search_response_get_object msg true =
      at_dsm (msg, none) msg
        (λ m d.
          at_dsop (msg, none) search_response_member d
            (λ r. take_last msg r.objects (λ ys.
              put_ds m d
                (record d { choice = DsChoice.search_response (record r { objects = ys }) }))))
  search_response_get_object msg false = reply invalid_param (msg, none)
