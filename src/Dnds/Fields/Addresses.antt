-- ===== src/Dnds/Fields/Addresses.antt =====
-- The IP addresses in the operations of a message, by their accessors in libnvcore/src/dnds.c.
use netvirt.Prelude.{ℕ, ◌≡◌, refl, true, List, Option, some}
use netvirt.Dnds.Types.{no_str, DndsMessage, success}
use netvirt.Dnds.Members.{
  netinfo_request_member, netinfo_response_member, node_conn_info_member, p2p_request_member,
  prov_response_member,
}
use netvirt.Dnds.Access.{
  AddressText, Reply, reply, given, out_given, written, reach, present_or, address_out,
}
use netvirt.Dnds.Access.Laws.{
  address_in-inet_pton, ntop-inet_ntop, ReadyDn, ReadyDs, ReadyProv, set_dn-get_dn, set_ds-get_ds,
  set_prov-get_prov,
}
use netvirt.Dnds.Dn.{
  netinfo_request_set_ip_local, netinfo_request_get_ip_local, netinfo_response_set_ip_address,
  netinfo_response_get_ip_address, netinfo_response_set_netmask, netinfo_response_get_netmask,
  prov_response_set_ip_address, prov_response_get_ip_address, p2p_request_set_ip_addr_dst,
  p2p_request_get_ip_addr_dst,
}
use netvirt.Dnds.Ds.{node_conn_info_set_ip_addr, node_conn_info_get_ip_addr}

pub data AddressField : Type 0 where
  netinfo_request_ip_local : AddressField
  netinfo_response_ip_address : AddressField
  netinfo_response_netmask : AddressField
  prov_response_ip_address : AddressField
  p2p_request_ip_addr_dst : AddressField
  node_conn_info_ip_addr : AddressField

unfoldable pub write_address :
    AddressText → AddressField → DndsMessage → List ℕ → Reply (Option DndsMessage)
write_address text netinfo_request_ip_local m s =
    netinfo_request_set_ip_local text (some m) (some s)
write_address text netinfo_response_ip_address m s =
    netinfo_response_set_ip_address text (some m) (some s)
write_address text netinfo_response_netmask m s =
    netinfo_response_set_netmask text (some m) (some s)
write_address text prov_response_ip_address m s =
    prov_response_set_ip_address text (some m) (some s)
write_address text p2p_request_ip_addr_dst m s = p2p_request_set_ip_addr_dst text (some m) (some s)
write_address text node_conn_info_ip_addr m s = node_conn_info_set_ip_addr text (some m) (some s)

unfoldable pub read_address : AddressText → AddressField → DndsMessage → Reply (Option (List ℕ))
read_address text netinfo_request_ip_local m = netinfo_request_get_ip_local text (some m) true
read_address text netinfo_response_ip_address m = netinfo_response_get_ip_address text (some m) true
read_address text netinfo_response_netmask m = netinfo_response_get_netmask text (some m) true
read_address text prov_response_ip_address m = prov_response_get_ip_address text (some m) true
read_address text p2p_request_ip_addr_dst m = p2p_request_get_ip_addr_dst text (some m) true
read_address text node_conn_info_ip_addr m = node_conn_info_get_ip_addr text (some m) true

unfoldable pub AddressFieldReady : AddressField → DndsMessage → Type 0
AddressFieldReady netinfo_request_ip_local = ReadyDn netinfo_request_member
AddressFieldReady netinfo_response_ip_address = ReadyDn netinfo_response_member
AddressFieldReady netinfo_response_netmask = ReadyDn netinfo_response_member
AddressFieldReady prov_response_ip_address = ReadyProv prov_response_member
AddressFieldReady p2p_request_ip_addr_dst = ReadyDn p2p_request_member
AddressFieldReady node_conn_info_ip_addr = ReadyDs node_conn_info_member

module _ (text : AddressText) where
  -- If the message has the operation that an IP address belongs to, and `inet_pton` can read the
  -- text, writing it succeeds, the message keeps that operation, and what is read back is a text for
  -- the same four bytes.
  pub write_address-read_address :
      (f : AddressField) (m : DndsMessage) (s b : List ℕ)
      → text.inet_pton s ≡ some b
      → AddressFieldReady f m
      → (m' : DndsMessage) × (s' : List ℕ) × (write_address text f m s ≡ reply success (some m'))
        × AddressFieldReady f m'
        × (read_address text f m' ≡ reply success (some s'))
        × (text.inet_pton s' ≡ some b)
  unfolding given out_given present_or written address_out reach AddressFieldReady write_address
      read_address netinfo_request_get_ip_local netinfo_request_set_ip_local
      netinfo_response_get_ip_address netinfo_response_get_netmask netinfo_response_set_ip_address
      netinfo_response_set_netmask node_conn_info_get_ip_addr node_conn_info_set_ip_addr
      p2p_request_get_ip_addr_dst p2p_request_set_ip_addr_dst prov_response_get_ip_address
      prov_response_set_ip_address
  write_address-read_address netinfo_request_ip_local m s b is_b ready =
      let (s', to_text, to_bytes) = text.inet_pton-inet_ntop b (text.inet_pton-length s b is_b) in
      let (m', done, ready', got) = set_dn-get_dn netinfo_request_member m _ _ s' ready (λ r. (
        record r { ip_local = (record { buf = some b; size = 4 }) },
        rw (address_in-inet_pton text s b r.ip_local is_b) refl,
        ntop-inet_ntop text s' b to_text,
      )) in
      (m', s', done, ready', got, to_bytes)
  write_address-read_address netinfo_response_ip_address m s b is_b ready =
      let (s', to_text, to_bytes) = text.inet_pton-inet_ntop b (text.inet_pton-length s b is_b) in
      let (m', done, ready', got) = set_dn-get_dn netinfo_response_member m _ _ s' ready (λ r. (
        record r { ip_address = (record { buf = some b; size = 4 }) },
        rw (address_in-inet_pton text s b r.ip_address is_b) refl,
        ntop-inet_ntop text s' b to_text,
      )) in
      (m', s', done, ready', got, to_bytes)
  write_address-read_address netinfo_response_netmask m s b is_b ready =
      let (s', to_text, to_bytes) = text.inet_pton-inet_ntop b (text.inet_pton-length s b is_b) in
      let (m', done, ready', got) = set_dn-get_dn netinfo_response_member m _ _ s' ready (λ r. (
        record r { netmask = (record { buf = some b; size = 4 }) },
        rw (address_in-inet_pton text s b r.netmask is_b) refl,
        ntop-inet_ntop text s' b to_text,
      )) in
      (m', s', done, ready', got, to_bytes)
  write_address-read_address prov_response_ip_address m s b is_b ready =
      let (s', to_text, to_bytes) = text.inet_pton-inet_ntop b (text.inet_pton-length s b is_b) in
      let (m', done, ready', got) = set_prov-get_prov prov_response_member m _ _ s' ready (λ r. (
        record r { ip_address = (some (record { buf = some b; size = 4 })) },
        rw (address_in-inet_pton text s b no_str is_b) refl,
        ntop-inet_ntop text s' b to_text,
      )) in
      (m', s', done, ready', got, to_bytes)
  write_address-read_address p2p_request_ip_addr_dst m s b is_b ready =
      let (s', to_text, to_bytes) = text.inet_pton-inet_ntop b (text.inet_pton-length s b is_b) in
      let (m', done, ready', got) = set_dn-get_dn p2p_request_member m _ _ s' ready (λ r. (
        record r { ip_addr_dst = (record { buf = some b; size = 4 }) },
        rw (address_in-inet_pton text s b r.ip_addr_dst is_b) refl,
        ntop-inet_ntop text s' b to_text,
      )) in
      (m', s', done, ready', got, to_bytes)
  write_address-read_address node_conn_info_ip_addr m s b is_b ready =
      let (s', to_text, to_bytes) = text.inet_pton-inet_ntop b (text.inet_pton-length s b is_b) in
      let (m', done, ready', got) = set_ds-get_ds node_conn_info_member m _ _ s' ready (λ r. (
        record r { ip_addr = (record { buf = some b; size = 4 }) },
        rw (address_in-inet_pton text s b r.ip_addr is_b) refl,
        ntop-inet_ntop text s' b to_text,
      )) in
      (m', s', done, ready', got, to_bytes)
