-- ===== src/Dnds/Fields/Changes/Refusals.antt =====
-- What the accessors of libnvcore/src/dnds.c do with a message that does not have the operation.
use netvirt.Prelude.{ℕ, ◌≡◌, ◌⊎◌, inl, sym, List, Option, some}
use netvirt.Dnds.Types.{DndsMessage, Code, no_str}
use netvirt.Dnds.Members.{
  add_response_member, auth_request_member, auth_response_member, del_response_member,
  modify_response_member, netinfo_request_member, netinfo_response_member, node_conn_info_member,
  p2p_request_member, p2p_response_member, prov_request_member, prov_response_member,
  search_request_member, search_response_member,
}
use netvirt.Dnds.Access.{AddressText, reply, given, strdup, reach, at_message}
use netvirt.Dnds.Access.Refusals.{
  Succeeds, Converts, Refuses, reply_code, at_dnm-Refuses, at_dsm-Refuses, pure-Unchecked,
  copied-Unchecked, address-Unchecked, set_dn-Refuses, set_ds-Refuses, set_prov-Refuses,
}
use netvirt.Dnds.Dn.{
  auth_response_set_result, netinfo_response_set_result, p2p_request_set_side,
  p2p_response_set_result, auth_request_set_cert_name, prov_request_set_prov_code,
  prov_response_set_certificate, prov_response_set_certificate_key, prov_response_set_trusted_cert,
  netinfo_request_set_mac_addr, p2p_request_set_mac_addr_dst, p2p_response_set_mac_addr_dst,
  netinfo_request_set_ip_local, netinfo_response_set_ip_address, netinfo_response_set_netmask,
  prov_response_set_ip_address, p2p_request_set_ip_addr_dst,
}
use netvirt.Dnds.Ds.{
  node_conn_info_set_state, add_response_set_result, del_response_set_result,
  modify_response_set_result, node_conn_info_set_cert_name, node_conn_info_set_ip_addr,
}
use netvirt.Dnds.Search.{
  search_request_set_search_type, search_response_set_search_type, search_response_set_result,
}
use netvirt.Dnds.Fields.Changes.{
  Change, number, text, mac, address, header, dn_operation, ds_operation, pdu, frame, change,
}
use netvirt.Dnds.Fields.Headers.Refusals.{NoObject, write_header-Refuses}
use netvirt.Dnds.Message.{
  dn_message_set_operation, ds_message_set_operation, dnds_message_set_pdu,
  dnds_message_set_ethernet,
}
use netvirt.Dnds.Fields.Numbers.{
  NumberField, write_number, auth_response_result, netinfo_response_result, p2p_request_side,
  p2p_response_result, node_conn_info_state, add_response_result, del_response_result,
  modify_response_result, search_request_search_type, search_response_search_type,
  search_response_result,
}
use netvirt.Dnds.Fields.Texts.{
  TextField, write_text, auth_request_cert_name, prov_request_prov_code, prov_response_certificate,
  prov_response_certificate_key, prov_response_trusted_cert, node_conn_info_cert_name,
}
use netvirt.Dnds.Fields.Macs.{
  MacField, write_mac, netinfo_request_mac_addr, p2p_request_mac_addr_dst,
  p2p_response_mac_addr_dst,
}
use netvirt.Dnds.Fields.Addresses.{
  AddressField, write_address, netinfo_request_ip_local, netinfo_response_ip_address,
  netinfo_response_netmask, prov_response_ip_address, p2p_request_ip_addr_dst,
  node_conn_info_ip_addr,
}

module _ (m : DndsMessage) (m' : Option DndsMessage) (code : Code) where
  write_number-Refuses :
      (f : NumberField) (v : ℕ)
      → write_number f m v ≡ reply code m'
      → Succeeds code ⊎ Refuses m code m'
  unfolding write_number given auth_response_set_result netinfo_response_set_result
      p2p_request_set_side p2p_response_set_result node_conn_info_set_state add_response_set_result
      del_response_set_result modify_response_set_result search_request_set_search_type
      search_response_set_search_type search_response_set_result
  write_number-Refuses auth_response_result v e =
      set_dn-Refuses auth_response_member m m' _ _ code (pure-Unchecked (λ r a. a) v) e
  write_number-Refuses netinfo_response_result v e =
      set_dn-Refuses netinfo_response_member m m' _ _ code
        (pure-Unchecked (λ r a. record r { result = a }) v) e
  write_number-Refuses p2p_request_side v e =
      set_dn-Refuses p2p_request_member m m' _ _ code
        (pure-Unchecked (λ r a. record r { side = a }) v) e
  write_number-Refuses p2p_response_result v e =
      set_dn-Refuses p2p_response_member m m' _ _ code
        (pure-Unchecked (λ r a. record r { result = a }) v) e
  write_number-Refuses node_conn_info_state v e =
      set_ds-Refuses node_conn_info_member m m' _ _ code
        (pure-Unchecked (λ r a. record r { state = a }) v) e
  write_number-Refuses add_response_result v e =
      set_ds-Refuses add_response_member m m' _ _ code (pure-Unchecked (λ r a. a) v) e
  write_number-Refuses del_response_result v e =
      set_ds-Refuses del_response_member m m' _ _ code (pure-Unchecked (λ r a. a) v) e
  write_number-Refuses modify_response_result v e =
      set_ds-Refuses modify_response_member m m' _ _ code (pure-Unchecked (λ r a. a) v) e
  write_number-Refuses search_request_search_type v e =
      set_ds-Refuses search_request_member m m' _ _ code
        (pure-Unchecked (λ r a. record r { searchtype = a }) v) e
  write_number-Refuses search_response_search_type v e =
      set_ds-Refuses search_response_member m m' _ _ code
        (pure-Unchecked (λ r a. record r { searchtype = a }) v) e
  write_number-Refuses search_response_result v e =
      set_ds-Refuses search_response_member m m' _ _ code
        (pure-Unchecked (λ r a. record r { dnds_result = a }) v) e

  write_text-Refuses :
      (f : TextField) (s : List ℕ) (n : ℕ)
      → write_text f m s n ≡ reply code m'
      → Succeeds code ⊎ Refuses m code m'
  unfolding write_text given auth_request_set_cert_name prov_request_set_prov_code
      prov_response_set_certificate prov_response_set_certificate_key prov_response_set_trusted_cert
      node_conn_info_set_cert_name
  write_text-Refuses auth_request_cert_name s n e =
      set_dn-Refuses auth_request_member m m' _ _ code (pure-Unchecked (λ r a. a) (strdup s n)) e
  write_text-Refuses prov_request_prov_code s n e =
      set_prov-Refuses prov_request_member m m' _ _ code
        (pure-Unchecked (λ r a. some a) (strdup s n)) e
  write_text-Refuses prov_response_certificate s n e =
      set_prov-Refuses prov_response_member m m' _ _ code
        (pure-Unchecked (λ r a. record r { certificate = some a }) (strdup s n)) e
  write_text-Refuses prov_response_certificate_key s n e =
      set_prov-Refuses prov_response_member m m' _ _ code
        (pure-Unchecked (λ r a. record r { certificate_key = some a }) (strdup s n)) e
  write_text-Refuses prov_response_trusted_cert s n e =
      set_prov-Refuses prov_response_member m m' _ _ code
        (pure-Unchecked (λ r a. record r { trusted_cert = some a }) (strdup s n)) e
  write_text-Refuses node_conn_info_cert_name s n e =
      set_ds-Refuses node_conn_info_member m m' _ _ code
        (pure-Unchecked (λ r a. record r { cert_name = a }) (strdup s n)) e

  write_mac-Refuses :
      (f : MacField) (s : List ℕ)
      → write_mac f m s ≡ reply code m'
      → Succeeds code ⊎ Refuses m code m'
  unfolding write_mac given netinfo_request_set_mac_addr p2p_request_set_mac_addr_dst
      p2p_response_set_mac_addr_dst
  write_mac-Refuses netinfo_request_mac_addr s e =
      set_dn-Refuses netinfo_request_member m m' _ _ code
        (copied-Unchecked (λ r a. record r { mac_addr = a }) 6 s) e
  write_mac-Refuses p2p_request_mac_addr_dst s e =
      set_dn-Refuses p2p_request_member m m' _ _ code
        (copied-Unchecked (λ r a. record r { mac_addr_dst = a }) 6 s) e
  write_mac-Refuses p2p_response_mac_addr_dst s e =
      set_dn-Refuses p2p_response_member m m' _ _ code
        (copied-Unchecked (λ r a. record r { mac_addr_dst = a }) 6 s) e

  write_address-Refuses :
      (f : AddressField) (inet : AddressText) (s : List ℕ)
      → write_address inet f m s ≡ reply code m'
      → Converts inet s code ⊎ Refuses m code m'
  unfolding write_address given netinfo_request_set_ip_local netinfo_response_set_ip_address
      netinfo_response_set_netmask prov_response_set_ip_address p2p_request_set_ip_addr_dst
      node_conn_info_set_ip_addr
  write_address-Refuses netinfo_request_ip_local inet s e =
      set_dn-Refuses netinfo_request_member m m' _ _ code
        (address-Unchecked (λ r a. record r { ip_local = a }) inet s (λ r. r.ip_local)) e
  write_address-Refuses netinfo_response_ip_address inet s e =
      set_dn-Refuses netinfo_response_member m m' _ _ code
        (address-Unchecked (λ r a. record r { ip_address = a }) inet s (λ r. r.ip_address)) e
  write_address-Refuses netinfo_response_netmask inet s e =
      set_dn-Refuses netinfo_response_member m m' _ _ code
        (address-Unchecked (λ r a. record r { netmask = a }) inet s (λ r. r.netmask)) e
  write_address-Refuses prov_response_ip_address inet s e =
      set_prov-Refuses prov_response_member m m' _ _ code
        (address-Unchecked (λ r a. record r { ip_address = some a }) inet s (λ r. no_str)) e
  write_address-Refuses p2p_request_ip_addr_dst inet s e =
      set_dn-Refuses p2p_request_member m m' _ _ code
        (address-Unchecked (λ r a. record r { ip_addr_dst = a }) inet s (λ r. r.ip_addr_dst)) e
  write_address-Refuses node_conn_info_ip_addr inet s e =
      set_ds-Refuses node_conn_info_member m m' _ _ code
        (address-Unchecked (λ r a. record r { ip_addr = a }) inet s (λ r. r.ip_addr)) e

-- The code that a change answers with when it goes through: success, or for an IP address whose
-- text `inet_pton` cannot read the failure of the conversion.
unfoldable pub GoesThrough : AddressText → Change → Code → Type 0
GoesThrough inet (number f v) code = Succeeds code
GoesThrough inet (text f s n) code = Succeeds code
GoesThrough inet (mac f s) code = Succeeds code
GoesThrough inet (address f s) code = Converts inet s code
GoesThrough inet (header f v) code = Succeeds code
GoesThrough inet (dn_operation operation) code = Succeeds code
GoesThrough inet (ds_operation operation) code = Succeeds code
GoesThrough inet (pdu present) code = Succeeds code
GoesThrough inet (frame s n) code = Succeeds code

-- A change of the object of a search to NULL.
unfoldable pub Nothing : Change → Code → DndsMessage → Option DndsMessage → Type 0
Nothing (header f v) code m m' = NoObject f v code m m'
Nothing c code m m' = ⊥

-- If a setter of a field that `Change` lists returns, then one of four holds: it answers success; or
-- it sets an IP address whose text `inet_pton` cannot read, and it answers that the conversion has
-- failed; or the message is as it was and the code is that of a wrong PDU or a wrong operation; or it
-- sets the object of a search to NULL, the message is as it was and the code is that of a wrong
-- argument. What the message is after a failed conversion is not said.
pub change-Refuses :
    (inet : AddressText) (c : Change) (m : DndsMessage) (m' : Option DndsMessage) (code : Code)
    → change inet c m ≡ reply code m'
    → (GoesThrough inet c code ⊎ Refuses m code m') ⊎ Nothing c code m m'
unfolding change GoesThrough Nothing Succeeds at_message reach dn_message_set_operation
    ds_message_set_operation dnds_message_set_pdu dnds_message_set_ethernet
change-Refuses inet (number f v) m m' code e = inl (write_number-Refuses m m' code f v e)
change-Refuses inet (text f s n) m m' code e = inl (write_text-Refuses m m' code f s n e)
change-Refuses inet (mac f s) m m' code e = inl (write_mac-Refuses m m' code f s e)
change-Refuses inet (address f s) m m' code e = inl (write_address-Refuses m m' code f inet s e)
change-Refuses inet (header f v) m m' code e = write_header-Refuses m m' code f v e
change-Refuses inet (dn_operation operation) m m' code e = inl (at_dnm-Refuses m m' code _ e)
change-Refuses inet (ds_operation operation) m m' code e = inl (at_dsm-Refuses m m' code _ e)
change-Refuses inet (pdu present) m m' code e = inl (inl (sym (reply_code e)))
change-Refuses inet (frame s n) m m' code e = inl (inl (sym (reply_code e)))
