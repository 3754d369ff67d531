-- ===== src/Tests/Names.antt =====
-- Names of certificates and headers of frames.
use netvirt.Prelude.{ℕ, ◌+◌, ◌*◌, ◌≡◌, ◌↔◌, refl, true, List, [], ◌∷◌, ◌++◌, arith, replicate}
use netvirt.Cert.{nva, node, cn2node_info, altname2node_info}
use netvirt.Cert.Names.{cn2node_info-nva, altname2node_info_lem}
use netvirt.Inet.{
  inet_get_mac_addr_dst, inet_get_mac_addr_src, inet_is_ipv4, inet_is_ipv6, inet_get_iphdr_len,
}
use netvirt.Inet.Laws.{frame, mac, frame_fields, iphdr_len_zero}

abbrev uuid : List ℕ
uuid = replicate 36 b'a'

cn2node_info-nva_example :
    cn2node_info (nva ++ (uuid ++ (b'@' ∷ b'4' ∷ b'2' ∷ [])))
    ≡ node (record { uuid = uuid; network_uuid = []; network_id = b'4' ∷ b'2' ∷ []; v = 1 })
cn2node_info-nva_example = cn2node_info-nva uuid (b'4' ∷ b'2' ∷ []) refl (omega arith)

altname2node_info_lem_example :
    altname2node_info (uuid ++ (b'@' ∷ uuid))
    ≡ node (record { uuid = uuid; network_uuid = uuid; network_id = []; v = 2 })
altname2node_info_lem_example = altname2node_info_lem uuid uuid refl refl

abbrev station : ℕ → ℕ
station i = 2 + i

abbrev ipv4 : List ℕ
ipv4 = frame station station 8 0 (0x45 ∷ 0 ∷ 0 ∷ 84 ∷ [])

frame_fields_example :
    (inet_get_mac_addr_dst ipv4 ≡ mac station)
    × (inet_get_mac_addr_src ipv4 ≡ mac station)
    × ((inet_is_ipv4 ipv4 ≡ true) ↔ (8 * 256 + 0 ≡ 0x0800))
    × ((inet_is_ipv6 ipv4 ≡ true) ↔ (8 * 256 + 0 ≡ 0x86dd))
frame_fields_example =
    frame_fields station station 8 0 (0x45 ∷ 0 ∷ 0 ∷ 84 ∷ []) (omega arith) (omega arith)

iphdr_len_zero_example : inet_get_iphdr_len (1 ∷ 2 ∷ 3 ∷ []) ≡ 0
iphdr_len_zero_example =
    iphdr_len_zero (1 ∷ 2 ∷ 3 ∷ []) (omega arith, (omega arith, (omega arith, tt)))
