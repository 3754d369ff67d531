-- ===== src/Inet.antt =====
-- nvswitch/src/inet.c: what the switch reads from an Ethernet frame, as a list of bytes in the
-- order of `struct ether_header` (6 bytes of destination, 6 of source, 2 of type) and, behind it,
-- of `struct ip`. The host is little-endian. The code does not look at the length of the frame: of a frame
-- that is too short, where it reads on behind it, a number is read here as if zeros followed, and an
-- address is the bytes that are there.
pub mod Laws
use netvirt.Prelude.{
  ℕ, ◌+◌, ◌*◌, ◌/◌, ◌%◌, Bool, true, false, List, [], ◌∷◌, ◌==◌, ◌&&◌, if◌then◌else◌, get_or, take,
  drop,
}

-- `ADDR_UNICAST`, `ADDR_BROADCAST` and `ADDR_MULTICAST`
pub data AddrType : Type 0 where
  unicast broadcast multicast : AddrType

abbrev pub ether_addr_len : ℕ
ether_addr_len = 6

-- `memcmp(a, b, n) == 0`, for n the length of the second argument
abbrev pub same_bytes : List ℕ → List ℕ → Bool
same_bytes a [] = true
same_bytes [] (y ∷ b) = false
same_bytes (x ∷ a) (y ∷ b) = x == y && same_bytes a b

abbrev pub mac_addr_broadcast : List ℕ
mac_addr_broadcast = 0xff ∷ 0xff ∷ 0xff ∷ 0xff ∷ 0xff ∷ 0xff ∷ []

abbrev pub mac_addr_multicast : List ℕ
mac_addr_multicast = 0x01 ∷ 0x00 ∷ 0x5e ∷ 0 ∷ 0 ∷ 0 ∷ []

unfoldable pub inet_get_mac_addr_type : List ℕ → AddrType
inet_get_mac_addr_type mac_addr =
    if same_bytes mac_addr mac_addr_broadcast
    then broadcast
    else if same_bytes mac_addr (take 3 mac_addr_multicast)
    then multicast
    else unicast

unfoldable pub inet_get_mac_addr_dst : List ℕ → List ℕ
inet_get_mac_addr_dst data_ = take ether_addr_len data_

unfoldable pub inet_get_mac_addr_src : List ℕ → List ℕ
inet_get_mac_addr_src data_ = take ether_addr_len (drop ether_addr_len data_)

-- A 16-bit field at an offset as the machine loads it.
abbrev pub load16 : List ℕ → ℕ → ℕ
load16 data_ i = get_or data_ i 0 + 256 * get_or data_ (i + 1) 0

-- `htons` and `ntohl` of the little-endian host.
abbrev pub htons : ℕ → ℕ
htons x = x % 256 * 256 + x / 256 % 256

abbrev pub ntohl : ℕ → ℕ
ntohl x = x % 256 * 16777216 + x / 256 % 256 * 65536 + x / 65536 % 256 * 256 + x / 16777216 % 256

unfoldable pub inet_is_ipv4 : List ℕ → Bool
inet_is_ipv4 data_ = htons (load16 data_ 12) == 0x800

unfoldable pub inet_is_ipv6 : List ℕ → Bool
inet_is_ipv6 data_ = htons (load16 data_ 12) == 0x86dd

-- `ip_len` stands 2 bytes into the IP header; the result is a `uint16_t`.
unfoldable pub inet_get_iphdr_len : List ℕ → ℕ
inet_get_iphdr_len data_ = ntohl (load16 data_ 16) % 65536
