-- ===== src/Inet/Laws.antt =====
-- What the readers of a frame return.
use netvirt.Prelude.{ℕ, ◌+◌, ◌*◌, ◌<◌, ◌≡◌, ◌↔◌, refl, true, List, [], ◌∷◌, arith}
use netvirt.Bitmap.{IsBytes}
use netvirt.Bitmap.Bits.{get_or-lt}
use netvirt.Inet.{
  broadcast, multicast, inet_get_mac_addr_type, inet_get_mac_addr_dst, inet_get_mac_addr_src,
  inet_is_ipv4, inet_is_ipv6, inet_get_iphdr_len,
}

-- An Ethernet header: destination, source and type, each byte by byte, before the payload.
abbrev pub frame : (d s : ℕ → ℕ) → (t₀ t₁ : ℕ) → List ℕ → List ℕ
frame d s t₀ t₁ payload =
    d 0 ∷ d 1 ∷ d 2 ∷ d 3 ∷ d 4 ∷ d 5 ∷ s 0 ∷ s 1 ∷ s 2 ∷ s 3 ∷ s 4 ∷ s 5 ∷ t₀ ∷ t₁ ∷ payload

abbrev pub mac : (ℕ → ℕ) → List ℕ
mac a = a 0 ∷ a 1 ∷ a 2 ∷ a 3 ∷ a 4 ∷ a 5 ∷ []

-- A frame that starts with a header gives the two addresses of the header, and it is IPv4 exactly
-- when its type is 0x0800, and IPv6 exactly when its type is 0x86dd.
pub frame_fields :
    (d s : ℕ → ℕ) (t₀ t₁ : ℕ) (payload : List ℕ)
    → t₀ < 256
    → t₁ < 256
    → let f = frame d s t₀ t₁ payload in
      (inet_get_mac_addr_dst f ≡ mac d)
      × (inet_get_mac_addr_src f ≡ mac s)
      × ((inet_is_ipv4 f ≡ true) ↔ (t₀ * 256 + t₁ ≡ 0x0800))
      × ((inet_is_ipv6 f ≡ true) ↔ (t₀ * 256 + t₁ ≡ 0x86dd))
unfolding inet_get_mac_addr_dst inet_get_mac_addr_src inet_is_ipv4 inet_is_ipv6
frame_fields d s t₀ t₁ payload h h' = (refl, refl, ground arith, ground arith)

-- An address is broadcast exactly when all six bytes are 0xff, and multicast exactly when it
-- starts with 01:00:5e.
pub mac_addr_type_lem :
    (a : ℕ → ℕ)
    → ((inet_get_mac_addr_type (mac a) ≡ broadcast)
        ↔ ((a 0 ≡ 0xff) × (a 1 ≡ 0xff) × (a 2 ≡ 0xff) × (a 3 ≡ 0xff) × (a 4 ≡ 0xff) × (a 5 ≡ 0xff)))
      × ((inet_get_mac_addr_type (mac a) ≡ multicast)
          ↔ ((a 0 ≡ 0x01) × (a 1 ≡ 0x00) × (a 2 ≡ 0x5e)))
unfolding inet_get_mac_addr_type
mac_addr_type_lem a = (ground arith, ground arith)

-- The length that `inet_get_iphdr_len` returns is 0 for every frame of bytes, on a little-endian
-- host.
pub iphdr_len_zero : (f : List ℕ) → IsBytes f → inet_get_iphdr_len f ≡ 0
unfolding inet_get_iphdr_len
iphdr_len_zero f h = omega (arith, get_or-lt f 16 h, get_or-lt f 17 h)
