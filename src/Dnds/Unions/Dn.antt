-- ===== src/Dnds/Unions/Dn.antt =====
-- The members of the operation of a `DNMessage`.
use netvirt.Prelude.{ℕ, Option, none, some}
use netvirt.Dnds.Types.{
  Str, no_str, NetinfoRequest, NetinfoResponse, ProvResponse, P2pRequest, P2pResponse, DnChoice,
}

abbrev pub as_auth_request : DnChoice → Option Str
as_auth_request DnChoice.blank = some no_str
as_auth_request (DnChoice.auth_request r) = some r
as_auth_request (DnChoice.auth_response r) = none
as_auth_request (DnChoice.netinfo_request r) = none
as_auth_request (DnChoice.netinfo_response r) = none
as_auth_request (DnChoice.prov_request r) = none
as_auth_request (DnChoice.prov_response r) = none
as_auth_request (DnChoice.p2p_request r) = none
as_auth_request (DnChoice.p2p_response r) = none

abbrev pub as_auth_response : DnChoice → Option ℕ
as_auth_response DnChoice.blank = some 0
as_auth_response (DnChoice.auth_request r) = none
as_auth_response (DnChoice.auth_response r) = some r
as_auth_response (DnChoice.netinfo_request r) = none
as_auth_response (DnChoice.netinfo_response r) = none
as_auth_response (DnChoice.prov_request r) = none
as_auth_response (DnChoice.prov_response r) = none
as_auth_response (DnChoice.p2p_request r) = none
as_auth_response (DnChoice.p2p_response r) = none

abbrev pub as_netinfo_request : DnChoice → Option NetinfoRequest
as_netinfo_request DnChoice.blank = some (record { ip_local = no_str; mac_addr = no_str })
as_netinfo_request (DnChoice.auth_request r) = none
as_netinfo_request (DnChoice.auth_response r) = none
as_netinfo_request (DnChoice.netinfo_request r) = some r
as_netinfo_request (DnChoice.netinfo_response r) = none
as_netinfo_request (DnChoice.prov_request r) = none
as_netinfo_request (DnChoice.prov_response r) = none
as_netinfo_request (DnChoice.p2p_request r) = none
as_netinfo_request (DnChoice.p2p_response r) = none

abbrev pub as_netinfo_response : DnChoice → Option NetinfoResponse
as_netinfo_response DnChoice.blank =
    some (record { ip_address = no_str; netmask = no_str; result = 0 })
as_netinfo_response (DnChoice.auth_request r) = none
as_netinfo_response (DnChoice.auth_response r) = none
as_netinfo_response (DnChoice.netinfo_request r) = none
as_netinfo_response (DnChoice.netinfo_response r) = some r
as_netinfo_response (DnChoice.prov_request r) = none
as_netinfo_response (DnChoice.prov_response r) = none
as_netinfo_response (DnChoice.p2p_request r) = none
as_netinfo_response (DnChoice.p2p_response r) = none

abbrev pub as_prov_request : DnChoice → Option (Option Str)
as_prov_request DnChoice.blank = some none
as_prov_request (DnChoice.auth_request r) = none
as_prov_request (DnChoice.auth_response r) = none
as_prov_request (DnChoice.netinfo_request r) = none
as_prov_request (DnChoice.netinfo_response r) = none
as_prov_request (DnChoice.prov_request r) = some r
as_prov_request (DnChoice.prov_response r) = none
as_prov_request (DnChoice.p2p_request r) = none
as_prov_request (DnChoice.p2p_response r) = none

abbrev pub as_prov_response : DnChoice → Option ProvResponse
as_prov_response DnChoice.blank =
    some (record {
      certificate = none;
      certificate_key = none;
      trusted_cert = none;
      ip_address = none;
    })
as_prov_response (DnChoice.auth_request r) = none
as_prov_response (DnChoice.auth_response r) = none
as_prov_response (DnChoice.netinfo_request r) = none
as_prov_response (DnChoice.netinfo_response r) = none
as_prov_response (DnChoice.prov_request r) = none
as_prov_response (DnChoice.prov_response r) = some r
as_prov_response (DnChoice.p2p_request r) = none
as_prov_response (DnChoice.p2p_response r) = none

abbrev pub as_p2p_request : DnChoice → Option P2pRequest
as_p2p_request DnChoice.blank =
    some (record { mac_addr_dst = no_str; ip_addr_dst = no_str; port = 0; side = 0 })
as_p2p_request (DnChoice.auth_request r) = none
as_p2p_request (DnChoice.auth_response r) = none
as_p2p_request (DnChoice.netinfo_request r) = none
as_p2p_request (DnChoice.netinfo_response r) = none
as_p2p_request (DnChoice.prov_request r) = none
as_p2p_request (DnChoice.prov_response r) = none
as_p2p_request (DnChoice.p2p_request r) = some r
as_p2p_request (DnChoice.p2p_response r) = none

abbrev pub as_p2p_response : DnChoice → Option P2pResponse
as_p2p_response DnChoice.blank = some (record { mac_addr_dst = no_str; result = 0 })
as_p2p_response (DnChoice.auth_request r) = none
as_p2p_response (DnChoice.auth_response r) = none
as_p2p_response (DnChoice.netinfo_request r) = none
as_p2p_response (DnChoice.netinfo_response r) = none
as_p2p_response (DnChoice.prov_request r) = none
as_p2p_response (DnChoice.prov_response r) = none
as_p2p_response (DnChoice.p2p_request r) = none
as_p2p_response (DnChoice.p2p_response r) = some r
