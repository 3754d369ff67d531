-- ===== src/Dnds/Fields/Macs.antt =====
-- The MAC addresses in the operations of a message, by their accessors in libnvcore/src/dnds.c.
use netvirt.Prelude.{ℕ, ◌≡◌, refl, sym, ap, ◌∙◌, true, List, length, Option, some}
use netvirt.Dnds.Types.{DndsMessage, success}
use netvirt.Dnds.Members.{netinfo_request_member, p2p_request_member, p2p_response_member}
use netvirt.Dnds.Access.{Reply, reply, given, out_given, written, reach, copied, copy_out, bytes_of}
use netvirt.Dnds.Access.Laws.{bytes_of-length, ReadyDn, set_dn-get_dn}
use netvirt.Dnds.Dn.{
  netinfo_request_set_mac_addr, netinfo_request_get_mac_addr, p2p_request_set_mac_addr_dst,
  p2p_request_get_mac_addr_dst, p2p_response_set_mac_addr_dst, p2p_response_get_mac_addr_dst,
}

pub data MacField : Type 0 where
  netinfo_request_mac_addr : MacField
  p2p_request_mac_addr_dst : MacField
  p2p_response_mac_addr_dst : MacField

unfoldable pub write_mac : MacField → DndsMessage → List ℕ → Reply (Option DndsMessage)
write_mac netinfo_request_mac_addr m s = netinfo_request_set_mac_addr (some m) (some s)
write_mac p2p_request_mac_addr_dst m s = p2p_request_set_mac_addr_dst (some m) (some s)
write_mac p2p_response_mac_addr_dst m s = p2p_response_set_mac_addr_dst (some m) (some s)

unfoldable pub read_mac : MacField → DndsMessage → Reply (Option (List ℕ))
read_mac netinfo_request_mac_addr m = netinfo_request_get_mac_addr (some m) true
read_mac p2p_request_mac_addr_dst m = p2p_request_get_mac_addr_dst (some m) true
read_mac p2p_response_mac_addr_dst m = p2p_response_get_mac_addr_dst (some m) true

unfoldable pub MacFieldReady : MacField → DndsMessage → Type 0
MacFieldReady netinfo_request_mac_addr = ReadyDn netinfo_request_member
MacFieldReady p2p_request_mac_addr_dst = ReadyDn p2p_request_member
MacFieldReady p2p_response_mac_addr_dst = ReadyDn p2p_response_member

pub bytes_of_six : (s : List ℕ) → length s ≡ 6 → bytes_of 6 s ≡ some s
bytes_of_six s six = ap (λ n. bytes_of n s) (sym six) ∙ bytes_of-length s

-- If the message has the operation that a MAC address belongs to, writing six bytes succeeds, the
-- message keeps that operation, and the six bytes are read back.
pub write_mac-read_mac :
    (f : MacField) (m : DndsMessage) (s : List ℕ)
    → length s ≡ 6
    → MacFieldReady f m
    → (m' : DndsMessage) × (write_mac f m s ≡ reply success (some m'))
      × MacFieldReady f m'
      × (read_mac f m' ≡ reply success (some s))
unfolding given out_given written copied reach copy_out MacFieldReady write_mac read_mac
    netinfo_request_get_mac_addr netinfo_request_set_mac_addr p2p_request_get_mac_addr_dst
    p2p_request_set_mac_addr_dst p2p_response_get_mac_addr_dst p2p_response_set_mac_addr_dst
write_mac-read_mac netinfo_request_mac_addr m s six ready =
    set_dn-get_dn netinfo_request_member m _ _ _ ready (λ r. (
      record r { mac_addr = record { buf = some s; size = 6 } },
      rw (bytes_of_six s six) refl,
      rw (bytes_of_six s six) refl,
    ))
write_mac-read_mac p2p_request_mac_addr_dst m s six ready =
    set_dn-get_dn p2p_request_member m _ _ _ ready (λ r. (
      record r { mac_addr_dst = record { buf = some s; size = 6 } },
      rw (bytes_of_six s six) refl,
      rw (bytes_of_six s six) refl,
    ))
write_mac-read_mac p2p_response_mac_addr_dst m s six ready =
    set_dn-get_dn p2p_response_member m _ _ _ ready (λ r. (
      record r { mac_addr_dst = record { buf = some s; size = 6 } },
      rw (bytes_of_six s six) refl,
      rw (bytes_of_six s six) refl,
    ))
