-- ===== src/Agent/Messages/Exchange.antt =====
-- What one side of a connection writes into a message, the other reads from it.
use netvirt.Prelude.{ℕ, ◌≡◌, ◌<◌, refl, arith, ◌%◌, List, length, some}
use netvirt.Prelude.Bytes.{u32_mod}
use netvirt.Dnds.Types.{DndsMessage, no_str, dnm_pdu, DnChoice, PduChoice, p2p_request_op}
use netvirt.Dnds.Access.{
  AddressText, given, out_given, written, reach, at_message, if_tag, at_dnm, put_dn, at_dnop,
  set_dn, get_dn, copied, copy_out, address_out,
}
use netvirt.Dnds.Access.Laws.{address_in-inet_pton, ntop-inet_ntop}
use netvirt.Dnds.Fields.Macs.{bytes_of_six}
use netvirt.Dnds.Message.{dnds_message_new, dnds_message_set_pdu, dn_message_set_operation}
use netvirt.Dnds.Dn.{
  p2p_request_set_mac_addr_dst, p2p_request_set_ip_addr_dst, p2p_request_set_port,
  p2p_request_set_side, p2p_request_get_mac_addr_dst, p2p_request_get_ip_addr_dst,
  p2p_request_get_port, p2p_request_get_side,
}
use netvirt.Agent.Messages.{p2p_request_message, read_peer}

module _ (inet : AddressText) (s b : List ℕ) (is_b : inet.inet_pton s ≡ some b) where
  -- The address that is read for one that was written.
  pub printed : (s' : List ℕ) × (inet.inet_ntop b ≡ some s') × (inet.inet_pton s' ≡ some b)
  printed = inet.inet_pton-inet_ntop b (inet.inet_pton-length s b is_b)

abbrev pub introduction : (mac b : List ℕ) (port side : ℕ) → DndsMessage
introduction mac b port side = record {
  version = 1;
  channel = 0;
  present = dnm_pdu;
  choice = PduChoice.dnm (record {
    seq_number = 0;
    ack_number = 0;
    present = p2p_request_op;
    choice = DnChoice.p2p_request (record {
      mac_addr_dst = record { buf = some mac; size = 6 };
      ip_addr_dst = record { buf = some b; size = 4 };
      port = port;
      side = side;
    });
  });
}

-- The message with a port below 2 ^ 32, and what is read from it.
pub p2p_request_message-read_peer :
    (inet : AddressText) (mac ip ip' b : List ℕ) (port side : ℕ)
    → length mac ≡ 6
    → inet.inet_pton ip ≡ some b
    → inet.inet_ntop b ≡ some ip'
    → port < u32_mod
    → (p2p_request_message inet mac ip port side ≡ some (introduction mac b port side))
      × (read_peer inet (introduction mac b port side)
          ≡ some (record {
            mac_dst = some mac;
            ip_dst = some ip';
            port = some port;
            side = some side;
          }))
unfolding p2p_request_message read_peer dnds_message_new dnds_message_set_pdu
    dn_message_set_operation p2p_request_set_mac_addr_dst p2p_request_set_ip_addr_dst
    p2p_request_set_port p2p_request_set_side p2p_request_get_mac_addr_dst
    p2p_request_get_ip_addr_dst p2p_request_get_port p2p_request_get_side given out_given written
    reach at_message if_tag at_dnm put_dn at_dnop set_dn get_dn copied copy_out address_out
p2p_request_message-read_peer inet mac ip ip' b port side six is_b to_text small =
    let once : port % u32_mod ≡ port = ground arith in
    (
      rw (bytes_of_six mac six, address_in-inet_pton inet ip b no_str is_b, once) refl,
      rw (bytes_of_six mac six, ntop-inet_ntop inet ip' b to_text, once) refl,
    )
