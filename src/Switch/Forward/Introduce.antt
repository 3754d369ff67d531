-- ===== src/Switch/Forward/Introduce.antt =====
-- The second half of a unicast delivery: peers that have not been introduced are.
use netvirt.Prelude.{ℕ, ◌≡◌, if◌then◌else◌}
use netvirt.Tables.{HashTable}
use netvirt.Linkst.{linkst_join}
use netvirt.Linkst.Laws.{is_joined}
use netvirt.Switch.{World, put_network}
use netvirt.Switch.Forward.{introduce}
use netvirt.Switch.Forward.Flood.{sent}
use netvirt.Switch.Forward.P2p.{introductions, p2p_request-introductions}

-- The world in which `a` has been introduced to `b`.
abbrev pub introduced : {Table : Type 0} (now random : ℕ) → World Table → ℕ → ℕ → World Table
introduced now random w a b =
    let n = (w.sessions a).vnetwork in
    let vnet = w.networks n in
    put_network (sent w (introductions random w a b)) n
      (record vnet { linkst = (linkst_join now vnet.linkst (w.sessions a).id (w.sessions b).id).1 })

module _ (tables : HashTable) (now random : ℕ) (w : World tables.Table) (a b : ℕ) where
  pub introduce_lem : introduce tables now random w a b ≡ (
      if is_joined (w.networks (w.sessions a).vnetwork).linkst (w.sessions a).id (w.sessions b).id
      then w
      else introduced now random w a b)
  unfolding introduce
  introduce_lem i =
      let n = (w.sessions a).vnetwork in
      let w' = p2p_request-introductions random w a b i in
      let vnet = w'.networks n in
      if is_joined (w.networks n).linkst (w.sessions a).id (w.sessions b).id
      then w
      else put_network w' n (record vnet {
        linkst = (linkst_join now vnet.linkst (w.sessions a).id (w.sessions b).id).1;
      })
