-- ===== src/Dnds/Fields/Numbers.antt =====
-- The numbers in the operations of a message, by their accessors in libnvcore/src/dnds.c.
use netvirt.Prelude.{ℕ, ◌≡◌, refl, true, Option, some}
use netvirt.Dnds.Types.{DndsMessage, success}
use netvirt.Dnds.Members.{
  add_response_member, auth_response_member, del_response_member, modify_response_member,
  netinfo_response_member, node_conn_info_member, p2p_request_member, p2p_response_member,
  search_request_member, search_response_member,
}
use netvirt.Dnds.Access.{Reply, reply, given, out_given}
use netvirt.Dnds.Access.Laws.{ReadyDn, ReadyDs, set_dn-get_dn, set_ds-get_ds}
use netvirt.Dnds.Dn.{
  auth_response_set_result, auth_response_get_result, netinfo_response_set_result,
  netinfo_response_get_result, p2p_request_set_side, p2p_request_get_side, p2p_response_set_result,
  p2p_response_get_result,
}
use netvirt.Dnds.Ds.{
  node_conn_info_set_state, node_conn_info_get_state, add_response_set_result,
  add_response_get_result, del_response_set_result, del_response_get_result,
  modify_response_set_result, modify_response_get_result,
}
use netvirt.Dnds.Search.{
  search_request_set_search_type, search_request_get_search_type, search_response_set_search_type,
  search_response_get_search_type, search_response_set_result, search_response_get_result,
}

pub data NumberField : Type 0 where
  auth_response_result : NumberField
  netinfo_response_result : NumberField
  p2p_request_side : NumberField
  p2p_response_result : NumberField
  node_conn_info_state : NumberField
  add_response_result : NumberField
  del_response_result : NumberField
  modify_response_result : NumberField
  search_request_search_type : NumberField
  search_response_search_type : NumberField
  search_response_result : NumberField

unfoldable pub write_number : NumberField → DndsMessage → ℕ → Reply (Option DndsMessage)
write_number auth_response_result m v = auth_response_set_result (some m) v
write_number netinfo_response_result m v = netinfo_response_set_result (some m) v
write_number p2p_request_side m v = p2p_request_set_side (some m) v
write_number p2p_response_result m v = p2p_response_set_result (some m) v
write_number node_conn_info_state m v = node_conn_info_set_state (some m) v
write_number add_response_result m v = add_response_set_result (some m) v
write_number del_response_result m v = del_response_set_result (some m) v
write_number modify_response_result m v = modify_response_set_result (some m) v
write_number search_request_search_type m v = search_request_set_search_type (some m) v
write_number search_response_search_type m v = search_response_set_search_type (some m) v
write_number search_response_result m v = search_response_set_result (some m) v

unfoldable pub read_number : NumberField → DndsMessage → Reply (Option ℕ)
read_number auth_response_result m = auth_response_get_result (some m) true
read_number netinfo_response_result m = netinfo_response_get_result (some m) true
read_number p2p_request_side m = p2p_request_get_side (some m) true
read_number p2p_response_result m = p2p_response_get_result (some m) true
read_number node_conn_info_state m = node_conn_info_get_state (some m) true
read_number add_response_result m = add_response_get_result (some m) true
read_number del_response_result m = del_response_get_result (some m) true
read_number modify_response_result m = modify_response_get_result (some m) true
read_number search_request_search_type m = search_request_get_search_type (some m) true
read_number search_response_search_type m = search_response_get_search_type (some m) true
read_number search_response_result m = search_response_get_result (some m) true

unfoldable pub NumberFieldReady : NumberField → DndsMessage → Type 0
NumberFieldReady auth_response_result = ReadyDn auth_response_member
NumberFieldReady netinfo_response_result = ReadyDn netinfo_response_member
NumberFieldReady p2p_request_side = ReadyDn p2p_request_member
NumberFieldReady p2p_response_result = ReadyDn p2p_response_member
NumberFieldReady node_conn_info_state = ReadyDs node_conn_info_member
NumberFieldReady add_response_result = ReadyDs add_response_member
NumberFieldReady del_response_result = ReadyDs del_response_member
NumberFieldReady modify_response_result = ReadyDs modify_response_member
NumberFieldReady search_request_search_type = ReadyDs search_request_member
NumberFieldReady search_response_search_type = ReadyDs search_response_member
NumberFieldReady search_response_result = ReadyDs search_response_member

-- If the message has the operation that a number belongs to, the accessor `write` succeeds, the
-- message keeps that operation, and the accessor `read` gives the number back.
pub write_number-read_number :
    (f : NumberField) (m : DndsMessage) (v : ℕ)
    → NumberFieldReady f m
    → (m' : DndsMessage) × (write_number f m v ≡ reply success (some m'))
      × NumberFieldReady f m'
      × (read_number f m' ≡ reply success (some v))
unfolding given out_given NumberFieldReady write_number read_number add_response_get_result
    add_response_set_result auth_response_get_result auth_response_set_result
    del_response_get_result del_response_set_result modify_response_get_result
    modify_response_set_result netinfo_response_get_result netinfo_response_set_result
    node_conn_info_get_state node_conn_info_set_state p2p_request_get_side p2p_request_set_side
    p2p_response_get_result p2p_response_set_result search_request_get_search_type
    search_request_set_search_type search_response_get_result search_response_get_search_type
    search_response_set_result search_response_set_search_type
write_number-read_number auth_response_result m v ready =
    set_dn-get_dn auth_response_member m _ _ _ ready (λ r. (_, refl, refl))
write_number-read_number netinfo_response_result m v ready =
    set_dn-get_dn netinfo_response_member m _ _ _ ready (λ r. (_, refl, refl))
write_number-read_number p2p_request_side m v ready =
    set_dn-get_dn p2p_request_member m _ _ _ ready (λ r. (_, refl, refl))
write_number-read_number p2p_response_result m v ready =
    set_dn-get_dn p2p_response_member m _ _ _ ready (λ r. (_, refl, refl))
write_number-read_number node_conn_info_state m v ready =
    set_ds-get_ds node_conn_info_member m _ _ _ ready (λ r. (_, refl, refl))
write_number-read_number add_response_result m v ready =
    set_ds-get_ds add_response_member m _ _ _ ready (λ r. (_, refl, refl))
write_number-read_number del_response_result m v ready =
    set_ds-get_ds del_response_member m _ _ _ ready (λ r. (_, refl, refl))
write_number-read_number modify_response_result m v ready =
    set_ds-get_ds modify_response_member m _ _ _ ready (λ r. (_, refl, refl))
write_number-read_number search_request_search_type m v ready =
    set_ds-get_ds search_request_member m _ _ _ ready (λ r. (_, refl, refl))
write_number-read_number search_response_search_type m v ready =
    set_ds-get_ds search_response_member m _ _ _ ready (λ r. (_, refl, refl))
write_number-read_number search_response_result m v ready =
    set_ds-get_ds search_response_member m _ _ _ ready (λ r. (_, refl, refl))
