-- ===== src/Agent/Messages.antt =====
-- The messages that the agent, the switch and its control link make, as they make them, and what
-- they read from one: nvagent/src/agent.c, nvagent/src/p2p.c, nvswitch/src/request.c, switch.c and
-- control.c. That no accessor answers anything but `success` is not looked at there.
pub mod Exchange
use netvirt.Prelude.{ℕ, true, List, length, Option, none, some}
use netvirt.Dnds.Types.{
  DndsMessage, Str, DnopPr, dnm_pdu, ethernet_pdu, auth_request_op, auth_response_op,
  netinfo_request_op, netinfo_response_op, prov_request_op, prov_response_op, p2p_request_op,
}
use netvirt.Dnds.Access.{AddressText}
use netvirt.Dnds.Calls.{put, get, ◌>>=◌}
use netvirt.Dnds.Message.{
  dnds_message_new, dnds_message_set_channel, dnds_message_set_pdu, dnds_message_set_ethernet,
  dn_message_set_seq_number, dn_message_set_ack_number, dn_message_set_operation,
}
use netvirt.Dnds.Dn.{
  auth_request_set_cert_name, auth_request_get_cert_name, auth_response_set_result,
  netinfo_request_set_ip_local, netinfo_request_set_mac_addr, netinfo_request_get_ip_local,
  netinfo_request_get_mac_addr, prov_request_set_prov_code, prov_request_get_prov_code,
  prov_response_set_certificate, prov_response_set_certificate_key, prov_response_set_trusted_cert,
  prov_response_set_ip_address, p2p_request_set_mac_addr_dst, p2p_request_set_ip_addr_dst,
  p2p_request_set_port, p2p_request_set_side, p2p_request_get_mac_addr_dst,
  p2p_request_get_ip_addr_dst, p2p_request_get_port, p2p_request_get_side,
}
use netvirt.Agent.{P2pPeer}

-- A message of channel 0 for an operation of a `DNMessage`, with its numbers.
unfoldable pub numbered_message : (seq ack : ℕ) → DnopPr → Option DndsMessage
numbered_message seq ack operation = do
  m ← put (dnds_message_set_channel (some dnds_message_new) 0)
  m ← put (dnds_message_set_pdu (some m) dnm_pdu)
  m ← put (dn_message_set_seq_number (some m) seq)
  m ← put (dn_message_set_ack_number (some m) ack)
  put (dn_message_set_operation (some m) operation)

-- `tunnel_in`
unfoldable pub ethernet_message : List ℕ → Option DndsMessage
ethernet_message frame = do
  m ← put (dnds_message_set_channel (some dnds_message_new) 0)
  m ← put (dnds_message_set_pdu (some m) ethernet_pdu)
  put (dnds_message_set_ethernet (some m) (some frame) (length frame))

-- `transmit_netinfo_request`
unfoldable pub netinfo_request_message :
    AddressText → (ip_local hwaddr : List ℕ) → Option DndsMessage
netinfo_request_message inet ip_local hwaddr = do
  m ← numbered_message 0 0 netinfo_request_op
  m ← put (netinfo_request_set_ip_local inet (some m) (some ip_local))
  put (netinfo_request_set_mac_addr (some m) (some hwaddr))

-- `transmit_prov_request`
unfoldable pub prov_request_message : List ℕ → Option DndsMessage
prov_request_message prov_code = do
  m ← numbered_message 1 0 prov_request_op
  put (prov_request_set_prov_code (some m) (some prov_code) (length prov_code))

-- `transmit_register`
unfoldable pub auth_request_message : List ℕ → Option DndsMessage
auth_request_message subj = do
  m ← numbered_message 1 0 auth_request_op
  put (auth_request_set_cert_name (some m) (some subj) (length subj))

-- `authRequest` and `on_secure` of the switch
unfoldable pub auth_response_message : ℕ → Option DndsMessage
auth_response_message result = do
  m ← numbered_message 1 0 auth_response_op
  put (auth_response_set_result (some m) result)

-- `transmit_netinfo_response` of the switch
unfoldable pub netinfo_response_message : Option DndsMessage
netinfo_response_message = numbered_message 1 0 netinfo_response_op

-- The answer to a provisioning, in control.c
unfoldable pub prov_response_message :
    AddressText → (cert pkey tcert ipaddr : List ℕ) → Option DndsMessage
prov_response_message inet cert pkey tcert ipaddr = do
  m ← put (dnds_message_set_channel (some dnds_message_new) 0)
  m ← put (dnds_message_set_pdu (some m) dnm_pdu)
  m ← put (dn_message_set_operation (some m) prov_response_op)
  m ← put (prov_response_set_certificate (some m) (some cert) (length cert))
  m ← put (prov_response_set_certificate_key (some m) (some pkey) (length pkey))
  m ← put (prov_response_set_trusted_cert (some m) (some tcert) (length tcert))
  put (prov_response_set_ip_address inet (some m) (some ipaddr))

-- One of the two messages of `p2pRequest`
unfoldable pub p2p_request_message :
    AddressText → (tun_mac_addr ip : List ℕ) (port side : ℕ) → Option DndsMessage
p2p_request_message inet tun_mac_addr ip port side = do
  m ← put (dnds_message_set_pdu (some dnds_message_new) dnm_pdu)
  m ← put (dn_message_set_operation (some m) p2p_request_op)
  m ← put (p2p_request_set_mac_addr_dst (some m) (some tun_mac_addr))
  m ← put (p2p_request_set_ip_addr_dst inet (some m) (some ip))
  m ← put (p2p_request_set_port (some m) port)
  put (p2p_request_set_side (some m) side)

-- What `provRequest`, `authRequest` and `handle_netinfo_request` of the switch read.
unfoldable pub read_prov_code : DndsMessage → Option (Option Str)
read_prov_code m = get none (prov_request_get_prov_code (some m) true)

unfoldable pub read_cert_name : DndsMessage → Option (Option Str)
read_cert_name m = get none (auth_request_get_cert_name (some m) true)

unfoldable pub read_netinfo :
    AddressText → DndsMessage → (ip_local tun_mac_addr : List ℕ) → Option (List ℕ × List ℕ)
read_netinfo inet m ip_local tun_mac_addr = do
  ip ← get (some ip_local) (netinfo_request_get_ip_local inet (some m) true)
  mac ← get (some tun_mac_addr) (netinfo_request_get_mac_addr (some m) true)
  ip' ← ip
  mac' ← mac
  some (ip', mac')

-- What `op_p2p_request` reads; of its variables, `side` alone has a value before.
unfoldable pub read_peer : AddressText → DndsMessage → Option P2pPeer
read_peer inet m = do
  mac_dst ← get none (p2p_request_get_mac_addr_dst (some m) true)
  ip_dst ← get none (p2p_request_get_ip_addr_dst inet (some m) true)
  port ← get none (p2p_request_get_port (some m) true)
  side ← get (some 0) (p2p_request_get_side (some m) true)
  some (record { mac_dst = mac_dst; ip_dst = ip_dst; port = port; side = side })
