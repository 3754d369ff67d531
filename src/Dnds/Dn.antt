-- ===== src/Dnds/Dn.antt =====
-- The accessors of libnvcore/src/dnds.c for the operations of a `DNMessage`.
use netvirt.Prelude.{ℕ, ◌%◌, length, if◌then◌else◌, Bool, List, Option, none, some}
use netvirt.Prelude.Bytes.{u32_mod}
use netvirt.Dnds.Types.{Str, no_str, DndsMessage, success, invalid_param}
use netvirt.Dnds.Unions.{as_dnm, as_p2p_request}
use netvirt.Dnds.Members.{
  auth_request_member, auth_response_member, netinfo_request_member, netinfo_response_member,
  prov_request_member, prov_response_member, p2p_request_member, p2p_response_member,
}
use netvirt.Dnds.Access.{
  AddressText, Reply, reply, wild, written, given, out_given, reach, set_dn, get_dn, set_prov,
  get_prov, strdup, copied, copy_out, present_or, address_in, address_out,
}

unfoldable pub auth_request_set_cert_name :
    Option DndsMessage → Option (List ℕ) → ℕ → Reply (Option DndsMessage)
auth_request_set_cert_name msg value length =
    given msg value (λ s. set_dn auth_request_member msg (λ r. reply success (strdup s length)))

unfoldable pub auth_request_get_cert_name : Option DndsMessage → Bool → Reply (Option Str)
auth_request_get_cert_name msg out =
    out_given out (get_dn auth_request_member msg (λ r. reply success (some r)))

unfoldable pub auth_response_set_result : Option DndsMessage → ℕ → Reply (Option DndsMessage)
auth_response_set_result msg v = set_dn auth_response_member msg (λ r. reply success (v))

unfoldable pub auth_response_get_result : Option DndsMessage → Bool → Reply (Option ℕ)
auth_response_get_result msg out =
    out_given out (get_dn auth_response_member msg (λ r. reply success (some (r))))

unfoldable pub netinfo_request_set_mac_addr :
    Option DndsMessage → Option (List ℕ) → Reply (Option DndsMessage)
netinfo_request_set_mac_addr msg value = given msg value (λ s.
    set_dn netinfo_request_member msg (λ r. written (copied 6 s) (λ a. record r { mac_addr = a })))

unfoldable pub netinfo_request_get_mac_addr : Option DndsMessage → Bool → Reply (Option (List ℕ))
netinfo_request_get_mac_addr msg out =
    out_given out (get_dn netinfo_request_member msg (λ r. copy_out 6 r.mac_addr))

unfoldable pub netinfo_request_set_ip_local :
    AddressText → Option DndsMessage → Option (List ℕ) → Reply (Option DndsMessage)
netinfo_request_set_ip_local text msg value = given msg value (λ s.
    set_dn netinfo_request_member msg
      (λ r. written (address_in text s r.ip_local) (λ a. record r { ip_local = a })))

unfoldable pub netinfo_request_get_ip_local :
    AddressText → Option DndsMessage → Bool → Reply (Option (List ℕ))
netinfo_request_get_ip_local text msg out =
    out_given out (get_dn netinfo_request_member msg (λ r. address_out text r.ip_local))

unfoldable pub netinfo_response_set_ip_address :
    AddressText → Option DndsMessage → Option (List ℕ) → Reply (Option DndsMessage)
netinfo_response_set_ip_address text msg value = given msg value (λ s.
    set_dn netinfo_response_member msg
      (λ r. written (address_in text s r.ip_address) (λ a. record r { ip_address = a })))

unfoldable pub netinfo_response_get_ip_address :
    AddressText → Option DndsMessage → Bool → Reply (Option (List ℕ))
netinfo_response_get_ip_address text msg out =
    out_given out (get_dn netinfo_response_member msg (λ r. address_out text r.ip_address))

unfoldable pub netinfo_response_set_netmask :
    AddressText → Option DndsMessage → Option (List ℕ) → Reply (Option DndsMessage)
netinfo_response_set_netmask text msg value = given msg value (λ s.
    set_dn netinfo_response_member msg
      (λ r. written (address_in text s r.netmask) (λ a. record r { netmask = a })))

unfoldable pub netinfo_response_get_netmask :
    AddressText → Option DndsMessage → Bool → Reply (Option (List ℕ))
netinfo_response_get_netmask text msg out =
    out_given out (get_dn netinfo_response_member msg (λ r. address_out text r.netmask))

unfoldable pub netinfo_response_set_result : Option DndsMessage → ℕ → Reply (Option DndsMessage)
netinfo_response_set_result msg v =
    set_dn netinfo_response_member msg (λ r. reply success (record r { result = v }))

unfoldable pub netinfo_response_get_result : Option DndsMessage → Bool → Reply (Option ℕ)
netinfo_response_get_result msg out =
    out_given out (get_dn netinfo_response_member msg (λ r. reply success (some (r.result))))

unfoldable pub prov_request_set_prov_code :
    Option DndsMessage → Option (List ℕ) → ℕ → Reply (Option DndsMessage)
prov_request_set_prov_code msg value length =
    given msg value
      (λ s. set_prov prov_request_member msg (λ r. reply success (some (strdup s length))))

unfoldable pub prov_request_get_prov_code : Option DndsMessage → Bool → Reply (Option Str)
prov_request_get_prov_code msg out =
    out_given out
      (get_prov prov_request_member msg (λ r. present_or r (λ s. reply success (some s))))

unfoldable pub prov_response_set_certificate :
    Option DndsMessage → Option (List ℕ) → ℕ → Reply (Option DndsMessage)
prov_response_set_certificate msg value length = given msg value (λ s.
    set_prov prov_response_member msg
      (λ r. reply success (record r { certificate = some (strdup s length) })))

unfoldable pub prov_response_get_certificate : Option DndsMessage → Bool → Reply (Option Str)
prov_response_get_certificate msg out = out_given out (
    get_prov prov_response_member msg (λ r. present_or r.certificate (λ s. reply success (some s))))

unfoldable pub prov_response_set_certificate_key :
    Option DndsMessage → Option (List ℕ) → ℕ → Reply (Option DndsMessage)
prov_response_set_certificate_key msg value length = given msg value (λ s.
    set_prov prov_response_member msg
      (λ r. reply success (record r { certificate_key = some (strdup s length) })))

unfoldable pub prov_response_get_certificate_key : Option DndsMessage → Bool → Reply (Option Str)
prov_response_get_certificate_key msg out = out_given out (
    get_prov prov_response_member msg
      (λ r. present_or r.certificate_key (λ s. reply success (some s))))

unfoldable pub prov_response_set_trusted_cert :
    Option DndsMessage → Option (List ℕ) → ℕ → Reply (Option DndsMessage)
prov_response_set_trusted_cert msg value length = given msg value (λ s.
    set_prov prov_response_member msg
      (λ r. reply success (record r { trusted_cert = some (strdup s length) })))

unfoldable pub prov_response_get_trusted_cert : Option DndsMessage → Bool → Reply (Option Str)
prov_response_get_trusted_cert msg out = out_given out (
    get_prov prov_response_member msg
      (λ r. present_or r.trusted_cert (λ s. reply success (some s))))

unfoldable pub prov_response_set_ip_address :
    AddressText → Option DndsMessage → Option (List ℕ) → Reply (Option DndsMessage)
prov_response_set_ip_address text msg value = given msg value (λ s.
    set_prov prov_response_member msg
      (λ r. written (address_in text s no_str) (λ a. record r { ip_address = some a })))

unfoldable pub prov_response_get_ip_address :
    AddressText → Option DndsMessage → Bool → Reply (Option (List ℕ))
prov_response_get_ip_address text msg out =
    out_given out
      (get_prov prov_response_member msg (λ r. present_or r.ip_address (address_out text)))

unfoldable pub p2p_request_set_mac_addr_dst :
    Option DndsMessage → Option (List ℕ) → Reply (Option DndsMessage)
p2p_request_set_mac_addr_dst msg value = given msg value (λ s.
    set_dn p2p_request_member msg (λ r. written (copied 6 s) (λ a. record r { mac_addr_dst = a })))

-- The pointer that it writes through is not tested.
unfoldable pub p2p_request_get_mac_addr_dst : Option DndsMessage → Bool → Reply (Option (List ℕ))
p2p_request_get_mac_addr_dst msg out =
    get_dn p2p_request_member msg (λ r. if out then copy_out 6 r.mac_addr_dst else wild)

unfoldable pub p2p_request_set_ip_addr_dst :
    AddressText → Option DndsMessage → Option (List ℕ) → Reply (Option DndsMessage)
p2p_request_set_ip_addr_dst text msg value = given msg value (λ s.
    set_dn p2p_request_member msg
      (λ r. written (address_in text s r.ip_addr_dst) (λ a. record r { ip_addr_dst = a })))

unfoldable pub p2p_request_get_ip_addr_dst :
    AddressText → Option DndsMessage → Bool → Reply (Option (List ℕ))
p2p_request_get_ip_addr_dst text msg out =
    out_given out (get_dn p2p_request_member msg (λ r. address_out text r.ip_addr_dst))

unfoldable pub p2p_request_set_port : Option DndsMessage → ℕ → Reply (Option DndsMessage)
p2p_request_set_port msg v =
    set_dn p2p_request_member msg (λ r. reply success (record r { port = v % u32_mod }))

-- Neither the PDU nor the operation is looked at.
unfoldable pub p2p_request_get_port : Option DndsMessage → Bool → Reply (Option ℕ)
p2p_request_get_port none out = reply invalid_param none
p2p_request_get_port (some m) out = out_given out (
    reach (as_dnm m.choice)
      (λ d. reach (as_p2p_request d.choice) (λ r. reply success (some (r.port % u32_mod)))))

unfoldable pub p2p_request_set_side : Option DndsMessage → ℕ → Reply (Option DndsMessage)
p2p_request_set_side msg v =
    set_dn p2p_request_member msg (λ r. reply success (record r { side = v }))

unfoldable pub p2p_request_get_side : Option DndsMessage → Bool → Reply (Option ℕ)
p2p_request_get_side msg out =
    out_given out (get_dn p2p_request_member msg (λ r. reply success (some (r.side))))

unfoldable pub p2p_response_set_mac_addr_dst :
    Option DndsMessage → Option (List ℕ) → Reply (Option DndsMessage)
p2p_response_set_mac_addr_dst msg value = given msg value (λ s.
    set_dn p2p_response_member msg (λ r. written (copied 6 s) (λ a. record r { mac_addr_dst = a })))

unfoldable pub p2p_response_get_mac_addr_dst : Option DndsMessage → Bool → Reply (Option (List ℕ))
p2p_response_get_mac_addr_dst msg out =
    out_given out (get_dn p2p_response_member msg (λ r. copy_out 6 r.mac_addr_dst))

unfoldable pub p2p_response_set_result : Option DndsMessage → ℕ → Reply (Option DndsMessage)
p2p_response_set_result msg v =
    set_dn p2p_response_member msg (λ r. reply success (record r { result = v }))

unfoldable pub p2p_response_get_result : Option DndsMessage → Bool → Reply (Option ℕ)
p2p_response_get_result msg out =
    out_given out (get_dn p2p_response_member msg (λ r. reply success (some (r.result))))
