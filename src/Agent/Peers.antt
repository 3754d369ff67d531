-- ===== src/Agent/Peers.antt =====
-- nvagent/src/p2p.c: the connections from peer to peer. `none` is a use of memory that is not there
-- or has no value yet.
use netvirt.Prelude.{ℕ, ◌==◌, true, List, take, Option, some, if◌then◌else◌}
use netvirt.Links.{null, update}
use netvirt.Tables.{HashTable, ftable_find, ftable_insert, ftable_erase}
use netvirt.Dnds.Types.{DndsMessage}
use netvirt.Dnds.Calls.{◌>>=◌}
use netvirt.Agent.{AgentWorld, Surroundings, authed, unset, net_p2p, emit_event, put_agent_session}
use netvirt.Agent.Messages.{read_peer}
use netvirt.Agent.Ports.{port_str}

module _ (tables : HashTable) where
  open tables use {Table}

  unfoldable pub p2p_on_secure : AgentWorld Table → ℕ → Option (AgentWorld Table)
  unfolding update
  p2p_on_secure w netc = if netc == null then some w else do
    let p2p_session = w.ext_ptr netc
    let s = w.sessions p2p_session
    mac_dst ← s.mac_dst
    let w' = put_agent_session w p2p_session (record s { state = authed })
    some (record w' {
      ext_ptr = update w.ext_ptr s.netc p2p_session;
      ftable = ftable_insert tables w.ftable mac_dst p2p_session;
    })

  unfoldable pub p2p_on_connect : AgentWorld Table → ℕ → AgentWorld Table
  p2p_on_connect w netc =
      if netc == null
      then w
      else let p2p_session = w.ext_ptr netc in
        put_agent_session w p2p_session (record (w.sessions p2p_session) { netc = netc })

  -- A session in the table is freed by `session_itemrel`.
  unfoldable pub p2p_on_disconnect : AgentWorld Table → ℕ → Option (AgentWorld Table)
  unfolding update
  p2p_on_disconnect w netc = do
    let p2p_session = w.ext_ptr netc
    mac_dst ← (w.sessions p2p_session).mac_dst
    let freed = record w { session_freed = update w.session_freed p2p_session true }
    some (
        if p2p_session == ftable_find tables w.ftable mac_dst
        then record freed { ftable = ftable_erase tables w.ftable mac_dst }
        else freed)

  unfoldable pub p2p_find_session : AgentWorld Table → List ℕ → ℕ
  p2p_find_session w eth_frame = ftable_find tables w.ftable (take 6 eth_frame)

  -- `fresh` is what `calloc` returns.
  unfoldable pub op_p2p_request :
      Surroundings
      → AgentWorld Table
      → (session : ℕ) → DndsMessage
      → (fresh : ℕ) → Option (AgentWorld Table)
  op_p2p_request env w session msg fresh = do
    peer ← read_peer env.inet msg
    ip_dst ← peer.ip_dst
    port ← peer.port
    side ← peer.side
    let passport = (w.sessions session).passport
    let made =
        put_agent_session w fresh
          (record { passport = passport; netc = null; mac_dst = peer.mac_dst; state = unset })
    some (emit_event made (net_p2p ip_dst (port_str port) side passport fresh))
