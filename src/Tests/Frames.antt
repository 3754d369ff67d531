-- ===== src/Tests/Frames.antt =====
-- Frames of the two sessions of `Tests.Data`.
use netvirt.Prelude.{
  ℕ, ◌≡◌, refl, true, List, [], ◌∷◌, ◌++◌, arith, ◌==◌, ◌&&◌, if◌then◌else◌, some, take,
}
use netvirt.Links.{null}
use netvirt.Tables.{ftable_find}
use netvirt.Inet.{inet_get_mac_addr_type, inet_get_mac_addr_dst, inet_get_mac_addr_src}
use netvirt.Linkst.Laws.{is_joined}
use netvirt.Switch.{World, send, ethernet}
use netvirt.Switch.Forward.{learn, forward_ethernet}
use netvirt.Switch.Forward.Flood.{copies, sent}
use netvirt.Switch.Forward.P2p.{introductions}
use netvirt.Switch.Forward.Learn.{learn_find}
use netvirt.Switch.Forward.Unicast.{forward_unicast, forward_flood}
use netvirt.Switch.Forward.Reach.{OnlyTo}
use netvirt.Switch.Forward.Tenancy.{IsTenant, forward-OnlyTo}
use netvirt.Tests.Keys.{Bindings, same_key, bindings}
use netvirt.Tests.Data.{mac_a, mac_b, new_links, new_links-IsValid, world, network-Lists}

-- from session 1 to session 2, and to everybody
abbrev to_b : List ℕ
to_b = mac_b ++ (mac_a ++ (8 ∷ 0 ∷ []))

abbrev to_all : List ℕ
to_all = 0xff ∷ 0xff ∷ 0xff ∷ 0xff ∷ 0xff ∷ 0xff ∷ (mac_a ++ (8 ∷ 0 ∷ []))

network-IsTenant : IsTenant bindings world 7 (1 ∷ 2 ∷ [])
network-IsTenant = record { lists = network-Lists; members = λ p i. refl; known = λ mac ne. refl }

forward-OnlyTo_example :
    (w' : World Bindings) × (forward_ethernet bindings 3 100 0 world 1 to_all ≡ some w')
    × OnlyTo world 7 w'
forward-OnlyTo_example =
    forward-OnlyTo bindings 3 100 0 world 1 to_all (1 ∷ 2 ∷ []) (omega arith) network-IsTenant
      (omega arith)

forward_unicast_example :
    (w' : World Bindings) × (forward_ethernet bindings 3 100 0 world 1 to_b ≡ some w')
    × (w'.out
        ≡ []
          ++ (send 12 (ethernet to_b)
              ∷ (if is_joined (some new_links) 1 2 then [] else introductions 0 world 1 2)))
    × (is_joined (w'.networks 7).linkst 1 2 ≡ true)
unfolding ftable_find inet_get_mac_addr_src inet_get_mac_addr_dst inet_get_mac_addr_type
forward_unicast_example =
    forward_unicast bindings 3 100 0 world 1 to_b new_links refl (omega arith) (omega arith)
      (omega arith) (omega arith) refl refl refl new_links-IsValid refl

forward_flood_example :
    forward_ethernet bindings 3 100 0 world 1 to_all
    ≡ some (sent world (copies world to_all (1 ∷ 2 ∷ [])))
unfolding ftable_find inet_get_mac_addr_src inet_get_mac_addr_dst inet_get_mac_addr_type
forward_flood_example =
    forward_flood bindings 3 100 0 world 1 to_all (1 ∷ 2 ∷ []) refl (omega arith) (omega arith) refl
      network-Lists (omega arith)

learn_find_example :
    ftable_find bindings ((learn bindings world 1 to_b).0.networks 7).ftable mac_a ≡ (
      if 7 == 7
        && (same_key (take 6 (inet_get_mac_addr_src to_b)) (take 6 mac_a)
            && ftable_find bindings (world.networks 7).ftable (inet_get_mac_addr_src to_b) == null)
      then 1
      else ftable_find bindings (world.networks 7).ftable mac_a)
learn_find_example = learn_find bindings world 1 to_b (omega arith) mac_a 7
