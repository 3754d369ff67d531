-- ===== src/Switch/Forward/Learn.antt =====
-- What the switch learns from the source address of a frame.
use netvirt.Prelude.{ℕ, ◌≡◌, ◌≢◌, List, take, arith, ◌==◌, ◌&&◌, if◌then◌else◌}
use netvirt.Links.{null}
use netvirt.Tables.{HashTable, ftable_find, ftable_insert}
use netvirt.Inet.{inet_get_mac_addr_src}
use netvirt.Session.{session_add_mac}
use netvirt.Switch.{World, put_session, put_network}
use netvirt.Switch.Forward.{learn}

module _ (tables : HashTable) where
  open tables use {Table, same_key, same_key_iff, jsw_hfind, find_insert}

  -- `ftable_find` after `ftable_insert`.
  pub ftable_find-insert :
      (t : Table) (mac mac' : List ℕ) (item : ℕ)
      → item ≢ null
      → ftable_find tables (ftable_insert tables t mac item) mac' ≡ (
          if same_key (take 6 mac) (take 6 mac') && ftable_find tables t mac == null
          then item
          else ftable_find tables t mac')
  unfolding ftable_find ftable_insert
  ftable_find-insert t mac mac' item ne = find_insert t (take 6 mac) (take 6 mac') item ne

  module _ (w : World Table) (session : ℕ) (frame : List ℕ) where
    -- What stays as it was when an address is learnt.
    pub learn_keeps :
        (p : ℕ)
        → let s = (learn tables w session frame).0.sessions p in
          (s.vnetwork ≡ (w.sessions p).vnetwork)
          × (s.netc ≡ (w.sessions p).netc)
          × (s.next ≡ (w.sessions p).next)
          × (s.prev ≡ (w.sessions p).prev)
          × (s.id ≡ (w.sessions p).id)
          × (s.ip_local ≡ (w.sessions p).ip_local)
          × (s.tun_mac_addr ≡ (w.sessions p).tun_mac_addr)
    unfolding learn put_session put_network session_add_mac
    learn_keeps p = (
      ground arith,
      ground arith,
      ground arith,
      ground arith,
      ground arith,
      ground arith,
      ground arith,
    )

    pub learn_out : (learn tables w session frame).0.out ≡ w.out
    unfolding learn put_session put_network
    learn_out = ground arith

    pub learn_netcs : (learn tables w session frame).0.netcs ≡ w.netcs
    unfolding learn put_session put_network
    learn_netcs = ground arith

    pub learn_network :
        (n : ℕ)
        → ((learn tables w session frame).0.networks n).session_list ≡ (w.networks n).session_list
    unfolding learn put_session put_network
    learn_network n = ground arith

    -- After a frame of a session its source address is known to the network: as that session,
    -- where it was new, and as before otherwise. No other address is affected, nor another
    -- network.
    pub learn_find :
        session ≢ null
        → (mac : List ℕ) (n : ℕ)
        → let w' = (learn tables w session frame).0 in
          let home = (w.sessions session).vnetwork in
          ftable_find tables (w'.networks n).ftable mac ≡ (
            if n == home
              && (same_key (take 6 (inet_get_mac_addr_src frame)) (take 6 mac)
                  && ftable_find tables (w.networks home).ftable (inet_get_mac_addr_src frame)
                    == null)
            then session
            else ftable_find tables (w.networks n).ftable mac)
    unfolding learn put_session put_network
    learn_find nn mac n = ground (
      arith,
      ftable_find-insert (w.networks (w.sessions session).vnetwork).ftable
          (inet_get_mac_addr_src frame) mac session nn,
    )
