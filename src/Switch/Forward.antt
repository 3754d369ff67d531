-- ===== src/Switch/Forward.antt =====
-- `forward_ethernet` of nvswitch/src/switch.c and `p2pRequest` of request.c.
pub mod Flood
pub mod Learn
pub mod Introduce
pub mod P2p
pub mod Reach
pub mod Tenancy
pub mod Unicast
use netvirt.Prelude.{
  ℕ, zero, suc, ◌+◌, ◌%◌, is_one, ◌==◌, ◌&&◌, ◌||◌, not, Bool, true, false, if◌then◌else◌, List, [],
  ◌∷◌, Option, none, some,
}
use netvirt.Links.{null}
use netvirt.Tables.{HashTable, ftable_find, ftable_insert}
use netvirt.Inet.{
  AddrType, unicast, broadcast, multicast, inet_get_mac_addr_type, inet_get_mac_addr_dst,
  inet_get_mac_addr_src,
}
use netvirt.Linkst.{linkst_joined, linkst_join}
use netvirt.Session.{Session, SessionState, authed, not_authed, wait_stepup, purge, session_add_mac}
use netvirt.Switch.{
  World, Msg, ethernet, p2p_message, Side, client, server, Event, send, emit, put_session,
  put_network,
}
use netvirt.Vnetwork.{Vnetwork}

abbrev pub is_authed : SessionState → Bool
is_authed authed = true
is_authed not_authed = false
is_authed wait_stepup = false
is_authed purge = false

abbrev pub is_unicast : AddrType → Bool
is_unicast unicast = true
is_unicast broadcast = false
is_unicast multicast = false

abbrev pub is_broadcast : AddrType → Bool
is_broadcast unicast = false
is_broadcast broadcast = true
is_broadcast multicast = false

abbrev pub is_multicast : AddrType → Bool
is_multicast unicast = false
is_multicast broadcast = false
is_multicast multicast = true

-- `strcmp(a, b) == 0`
abbrev pub same_host : List ℕ → List ℕ → Bool
same_host [] [] = true
same_host [] (y ∷ b) = false
same_host (x ∷ a) [] = false
same_host (x ∷ a) (y ∷ b) = x == y && same_host a b

-- `rand() % (65535-49152+1)+49152`
unfoldable pub p2p_port : ℕ → ℕ
p2p_port rand = rand % 16384 + 49152

module _ {Table : Type 0} where
  -- `random` is what `rand` returns. The addresses are private if both peers have one public host.
  unfoldable pub p2p_request : ℕ → World Table → ℕ → ℕ → World Table
  unfolding p2p_port
  p2p_request random w a b =
      let session_a = w.sessions a in
      let session_b = w.sessions b in
      let host_a = (w.netcs session_a.netc).host in
      let host_b = (w.netcs session_b.netc).host in
      let near = same_host host_a host_b in
      let ip_a = if near then session_a.ip_local else host_a in
      let ip_b = if near then session_b.ip_local else host_b in
      let port = p2p_port random in
      if session_a.netc == null || session_b.netc == null
      then w
      else emit (emit w (send session_a.netc (p2p_message session_b.tun_mac_addr ip_b port client)))
          (send session_b.netc (p2p_message session_a.tun_mac_addr ip_a port server))

  -- `while (session_list != NULL)` on fuel; `none` is a walk that outlives it.
  unfoldable pub flood : ℕ → World Table → ℕ → List ℕ → Option (World Table)
  flood zero w session_list frame = none
  flood (suc fuel) w session_list frame =
      let rest =
        flood fuel (emit w (send (w.sessions session_list).netc (ethernet frame)))
          (w.sessions session_list).next frame in
      if session_list == null then some w else rest

module _ (tables : HashTable) where
  open tables use {Table}

  -- The source address is learnt where it is new: the world, and `session_src`.
  unfoldable pub learn : World Table → ℕ → List ℕ → World Table × ℕ
  learn w session frame =
      let s = w.sessions session in
      let vnet = w.networks s.vnetwork in
      let src = inet_get_mac_addr_src frame in
      let session_src = ftable_find tables vnet.ftable src in
      if session_src == null
      then (
        put_network (put_session w session (session_add_mac (record s { mac_addr = src }) src))
            s.vnetwork (record vnet { ftable = ftable_insert tables vnet.ftable src session }),
        session,
      )
      else (w, session_src)

  -- The peers are introduced to one another unless they have been.
  unfoldable pub introduce : ℕ → ℕ → World Table → ℕ → ℕ → World Table
  introduce now random w session_src session_dst =
      let src = w.sessions session_src in
      let dst = w.sessions session_dst in
      let lnk_state = linkst_joined (w.networks src.vnetwork).linkst src.id dst.id in
      let w' = p2p_request random w session_src session_dst in
      let vnet = w'.networks src.vnetwork in
      if is_one lnk_state
      then w
      else put_network w' src.vnetwork
          (record vnet { linkst = (linkst_join now vnet.linkst src.id dst.id).1 })

  -- The frame is known to go somewhere: the part of `forward_ethernet` after the loop check.
  unfoldable pub deliver :
      (fuel now random : ℕ)
      → World Table
      → (session session_src session_dst : ℕ) → List ℕ
      → Option (World Table)
  deliver fuel now random w session session_src session_dst frame =
      let kind = inet_get_mac_addr_type (inet_get_mac_addr_dst frame) in
      let netc_dst = (w.sessions session_dst).netc in
      let vnet = w.networks (w.sessions session).vnetwork in
      let everyone = flood fuel w vnet.session_list frame in
      if is_unicast kind && not (session_dst == null) && not (netc_dst == null)
      then some
          (introduce now random (emit w (send netc_dst (ethernet frame))) session_src session_dst)
      else if is_broadcast kind || is_multicast kind || session_dst == null
      then everyone
      else some w

  -- A destination that was found through the session of the source is a loop.
  unfoldable pub forward_ethernet :
      (fuel now random : ℕ) → World Table → ℕ → List ℕ → Option (World Table)
  forward_ethernet fuel now random w session frame =
      let (w', session_src) = learn w session frame in
      let vnet = w'.networks (w'.sessions session).vnetwork in
      let session_dst = ftable_find tables vnet.ftable (inet_get_mac_addr_dst frame) in
      if is_authed (w.sessions session).state
      then if not (session_src == null) && not (session_dst == null) && session_src == session_dst
        then some w'
        else deliver fuel now random w' session session_src session_dst frame
      else some w
