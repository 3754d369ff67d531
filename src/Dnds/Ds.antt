-- ===== src/Dnds/Ds.antt =====
-- The accessors of libnvcore/src/dnds.c for the operations of a `DSMessage`. A list of objects is
-- an `asn_SET_OF`, whose functions are parameters.
use netvirt.Prelude.{ℕ, length, Bool, true, false, List, Option, none, some}
use netvirt.Dnds.Types.{Str, DsChoice, DndsMessage, ObjectPr, success, invalid_param}
use netvirt.Dnds.Members.{
  add_request_member, add_response_member, del_request_member, del_response_member,
  modify_request_member, modify_response_member, node_conn_info_member,
}
use netvirt.Dnds.Access.{
  AddressText, Reply, reply, written, given, out_given, at_dsm, put_ds, at_dsop, set_ds, get_ds,
  strdup, address_in, address_out,
}

unfoldable pub node_conn_info_set_cert_name :
    Option DndsMessage → Option (List ℕ) → ℕ → Reply (Option DndsMessage)
node_conn_info_set_cert_name msg value length = given msg value (λ s.
    set_ds node_conn_info_member msg
      (λ r. reply success (record r { cert_name = strdup s length })))

unfoldable pub node_conn_info_get_cert_name : Option DndsMessage → Bool → Reply (Option Str)
node_conn_info_get_cert_name msg out =
    out_given out (get_ds node_conn_info_member msg (λ r. reply success (some r.cert_name)))

unfoldable pub node_conn_info_set_ip_addr :
    AddressText → Option DndsMessage → Option (List ℕ) → Reply (Option DndsMessage)
node_conn_info_set_ip_addr text msg value = given msg value (λ s.
    set_ds node_conn_info_member msg
      (λ r. written (address_in text s r.ip_addr) (λ a. record r { ip_addr = a })))

unfoldable pub node_conn_info_get_ip_addr :
    AddressText → Option DndsMessage → Bool → Reply (Option (List ℕ))
node_conn_info_get_ip_addr text msg out =
    out_given out (get_ds node_conn_info_member msg (λ r. address_out text r.ip_addr))

unfoldable pub node_conn_info_set_state : Option DndsMessage → ℕ → Reply (Option DndsMessage)
node_conn_info_set_state msg v =
    set_ds node_conn_info_member msg (λ r. reply success (record r { state = v }))

unfoldable pub node_conn_info_get_state : Option DndsMessage → Bool → Reply (Option ℕ)
node_conn_info_get_state msg out =
    out_given out (get_ds node_conn_info_member msg (λ r. reply success (some (r.state))))

-- Where in a message the object is that a pointer has been taken of. The members of a union start
-- at one address.
pub data ObjectAt : Type 0 where
  in_add_request in_del_request in_modify_request : ObjectAt

abbrev ToObject : Type 0
ToObject = Option DndsMessage × Option ObjectAt

unfoldable pub add_request_set_object_type : Option DndsMessage → ObjectPr → Bool → Reply ToObject
add_request_set_object_type msg type true =
    at_dsm (msg, none) msg
      (λ m d.
        at_dsop (msg, none) add_request_member d
          (λ o. reply success (
            some (
                put_ds m d
                  (record d { choice = DsChoice.add_request (record o { present = type }) })),
            some in_add_request,
          )))
add_request_set_object_type msg type false = reply invalid_param (msg, none)

unfoldable pub add_request_get_object_type : Option DndsMessage → Bool → Reply (Option ObjectPr)
add_request_get_object_type msg out =
    out_given out (get_ds add_request_member msg (λ o. reply success (some o.present)))

unfoldable pub add_request_get_object : Option DndsMessage → Bool → Reply (Option ObjectAt)
add_request_get_object msg out =
    out_given out (get_ds add_request_member msg (λ o. reply success (some in_add_request)))

unfoldable pub add_response_set_result : Option DndsMessage → ℕ → Reply (Option DndsMessage)
add_response_set_result msg v = set_ds add_response_member msg (λ r. reply success (v))

unfoldable pub add_response_get_result : Option DndsMessage → Bool → Reply (Option ℕ)
add_response_get_result msg out =
    out_given out (get_ds add_response_member msg (λ r. reply success (some (r))))

unfoldable pub del_request_set_object_type : Option DndsMessage → ObjectPr → Bool → Reply ToObject
del_request_set_object_type msg type true =
    at_dsm (msg, none) msg
      (λ m d.
        at_dsop (msg, none) del_request_member d
          (λ o. reply success (
            some (
                put_ds m d
                  (record d { choice = DsChoice.del_request (record o { present = type }) })),
            some in_del_request,
          )))
del_request_set_object_type msg type false = reply invalid_param (msg, none)

unfoldable pub del_request_get_object_type : Option DndsMessage → Bool → Reply (Option ObjectPr)
del_request_get_object_type msg out =
    out_given out (get_ds del_request_member msg (λ o. reply success (some o.present)))

unfoldable pub del_request_get_object : Option DndsMessage → Bool → Reply (Option ObjectAt)
del_request_get_object msg out =
    out_given out (get_ds del_request_member msg (λ o. reply success (some in_add_request)))

unfoldable pub del_response_set_result : Option DndsMessage → ℕ → Reply (Option DndsMessage)
del_response_set_result msg v = set_ds del_response_member msg (λ r. reply success (v))

unfoldable pub del_response_get_result : Option DndsMessage → Bool → Reply (Option ℕ)
del_response_get_result msg out =
    out_given out (get_ds del_response_member msg (λ r. reply success (some (r))))

unfoldable pub modify_request_set_object_type :
    Option DndsMessage → ObjectPr → Bool → Reply ToObject
modify_request_set_object_type msg type true =
    at_dsm (msg, none) msg
      (λ m d.
        at_dsop (msg, none) modify_request_member d
          (λ o. reply success (
            some (
                put_ds m d
                  (record d { choice = DsChoice.modify_request (record o { present = type }) })),
            some in_modify_request,
          )))
modify_request_set_object_type msg type false = reply invalid_param (msg, none)

unfoldable pub modify_request_get_object_type : Option DndsMessage → Bool → Reply (Option ObjectPr)
modify_request_get_object_type msg out =
    out_given out (get_ds modify_request_member msg (λ o. reply success (some o.present)))

unfoldable pub modify_request_get_object : Option DndsMessage → Bool → Reply (Option ObjectAt)
modify_request_get_object msg out =
    out_given out (get_ds modify_request_member msg (λ o. reply success (some in_modify_request)))

unfoldable pub modify_response_set_result : Option DndsMessage → ℕ → Reply (Option DndsMessage)
modify_response_set_result msg v = set_ds modify_response_member msg (λ r. reply success (v))

unfoldable pub modify_response_get_result : Option DndsMessage → Bool → Reply (Option ℕ)
modify_response_get_result msg out =
    out_given out (get_ds modify_response_member msg (λ r. reply success (some (r))))
