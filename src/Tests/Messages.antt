-- ===== src/Tests/Messages.antt =====
-- Messages and objects of libnvcore/src/dnds.c.
use netvirt.Prelude.{ℕ, ◌≡◌, refl, true, List, [], ◌∷◌, none, some, ◌⊎◌}
use netvirt.Links.{null}
use netvirt.Tests.Codec.{inet, sets}
use netvirt.Dnds.Types.{
  DndsMessage, DndsObject, DnMessage, PduChoice, DnChoice, DsChoice, ObjectChoice, p2p_request_op,
  dnm_pdu, dsm_pdu, search_request_op, search_response_op, node_pr, success, value_not_present,
  invalid_op,
}
use netvirt.Dnds.Access.{reply, given, set_dn, at_dnm, at_message, if_tag, reach, at_dnop}
use netvirt.Dnds.Dn.{netinfo_request_set_mac_addr}
use netvirt.Dnds.Access.Refusals.{Refuses}
use netvirt.Dnds.Search.{
  search_request_add_to_objects, search_response_add_object, search_request_get_from_objects,
  search_response_get_object, search_request_get_object_count, search_response_get_object_count,
}
use netvirt.Dnds.Search.Requests.{RequestHolds, request-IsStack}
use netvirt.Dnds.Search.Responses.{ResponseHolds, response-IsStack}
use netvirt.Dnds.Fields.Addresses.{p2p_request_ip_addr_dst}
use netvirt.Dnds.Fields.ObjectNumbers.{node_status}
use netvirt.Dnds.Fields.Macs.{write_mac, netinfo_request_mac_addr}
use netvirt.Dnds.Fields.Changes.{Change, mac, address, change}
use netvirt.Dnds.Fields.Changes.Refusals.{GoesThrough, Nothing, change-Refuses}
use netvirt.Dnds.Fields.ObjectChanges.{ObjectChange, number}

abbrev p2p_dnm : DnMessage
p2p_dnm = record {
  seq_number = 1;
  ack_number = 0;
  present = p2p_request_op;
  choice = DnChoice.blank;
}

abbrev p2p_msg : DndsMessage
p2p_msg = record { version = 1; channel = 0; present = dnm_pdu; choice = PduChoice.dnm p2p_dnm }

abbrev set_ip : Change
set_ip = address p2p_request_ip_addr_dst (10 ∷ 0 ∷ 0 ∷ 7 ∷ [])

-- a field of another operation
abbrev set_mac : Change
set_mac = mac netinfo_request_mac_addr (1 ∷ 2 ∷ 3 ∷ 4 ∷ 5 ∷ 6 ∷ [])

refused : change inet set_mac p2p_msg ≡ reply invalid_op (some p2p_msg)
unfolding change write_mac netinfo_request_set_mac_addr given set_dn at_dnm at_message if_tag reach
    at_dnop
refused = refl

change-Refuses_example :
    (GoesThrough inet set_mac invalid_op ⊎ Refuses p2p_msg invalid_op (some p2p_msg))
    ⊎ Nothing set_mac invalid_op p2p_msg (some p2p_msg)
change-Refuses_example = change-Refuses inet set_mac p2p_msg (some p2p_msg) invalid_op refused

abbrev a_node : DndsObject
a_node = record { present = node_pr; choice = ObjectChoice.blank }

-- more than a byte
abbrev set_status : ObjectChange
set_status = number node_status 257

abbrev request_of : List ℕ → DndsMessage
request_of xs = record {
  version = 1;
  channel = 0;
  present = dsm_pdu;
  choice = PduChoice.dsm (record {
    seq_number = 1;
    ack_number = 0;
    apikey = none;
    action = 0;
    present = search_request_op;
    choice =
        DsChoice.search_request
          (record { searchtype = 0; objectname = none; object = null; objects = some xs });
  });
}

abbrev response_of : List ℕ → DndsMessage
response_of xs = record {
  version = 1;
  channel = 0;
  present = dsm_pdu;
  choice = PduChoice.dsm (record {
    seq_number = 1;
    ack_number = 0;
    apikey = none;
    action = 0;
    present = search_response_op;
    choice = DsChoice.search_response (record { searchtype = 0; dnds_result = 1; objects = xs });
  });
}

request_of-Holds : (xs : List ℕ) → RequestHolds (request_of xs) xs
unfolding RequestHolds
request_of-Holds xs = (_, _, refl, refl, refl, refl, refl)

response_of-Holds : (xs : List ℕ) → ResponseHolds (response_of xs) xs
unfolding ResponseHolds
response_of-Holds xs = (_, _, refl, refl, refl, refl, refl)

request-IsStack_example :
    (search_request_get_object_count (some (request_of (5 ∷ []))) true ≡ reply success (some 1))
    × (search_request_get_from_objects sets (some (request_of [])) true
        ≡ reply value_not_present (some (request_of []), none))
    × (m' : DndsMessage) × (m'' : DndsMessage) × (search_request_add_to_objects sets
          (some (request_of (5 ∷ [])))
          6
        ≡ reply success (some m'))
    × RequestHolds m' (5 ∷ 6 ∷ [])
    × (search_request_get_from_objects sets (some m') true ≡ reply success (some m'', some 6))
    × RequestHolds m'' (5 ∷ [])
request-IsStack_example =
    request-IsStack sets (request_of (5 ∷ [])) (request_of []) (5 ∷ []) 6 refl
      (request_of-Holds (5 ∷ [])) (request_of-Holds [])

response-IsStack_example :
    (search_response_get_object_count (some (response_of (5 ∷ []))) true ≡ reply success (some 1))
    × (search_response_get_object sets (some (response_of [])) true
        ≡ reply value_not_present (some (response_of []), none))
    × (m' : DndsMessage) × (m'' : DndsMessage) × (search_response_add_object sets
          (some (response_of (5 ∷ [])))
          6
        ≡ reply success (some m'))
    × ResponseHolds m' (5 ∷ 6 ∷ [])
    × (search_response_get_object sets (some m') true ≡ reply success (some m'', some 6))
    × ResponseHolds m'' (5 ∷ [])
response-IsStack_example =
    response-IsStack sets (response_of (5 ∷ [])) (response_of []) (5 ∷ []) 6 refl
      (response_of-Holds (5 ∷ [])) (response_of-Holds [])
