-- ===== src/Agent/Handlers/Introduced.antt =====
-- How an agent is introduced to a peer.
use netvirt.Prelude.{
  ℕ, ◌≡◌, ◌<◌, refl, arith, ◌==◌, true, false, if◌then◌else◌, List, [], ◌∷◌, ◌++◌, length, some,
}
use netvirt.Links.{null, update}
use netvirt.Tables.{HashTable}
use netvirt.Dnds.Types.{DndsMessage}
use netvirt.Dnds.Access.{out_used, reach, at_message, if_tag, at_dnm}
use netvirt.Dnds.Message.{dnds_message_get_pdu, dn_message_get_operation}
use netvirt.Agent.{AgentWorld, Surroundings, unset, net_p2p, emit_event, put_agent_session}
use netvirt.Agent.Messages.{p2p_request_message, read_peer}
use netvirt.Agent.Messages.Exchange.{printed, introduction, p2p_request_message-read_peer}
use netvirt.Agent.Ports.{port_str, digits_value, port_str_lem}
use netvirt.Agent.Peers.{op_p2p_request}
use netvirt.Agent.Handlers.{agent_dispatch_op, handle_message, handle_queue, agent_on_input}

module _ (tables : HashTable) (env : Surroundings) where
  open tables use {Table}

  -- The world after `op_p2p_request`, for what it has read.
  abbrev meeting :
      AgentWorld Table
      → (session fresh : ℕ) → (mac ip : List ℕ) → (port side : ℕ) → AgentWorld Table
  meeting w session fresh mac ip port side =
      let passport = (w.sessions session).passport in
      let made =
        put_agent_session w fresh
          (record { passport = passport; netc = null; mac_dst = some mac; state = unset }) in
      emit_event made (net_p2p ip (port_str port) side passport fresh)

  handle-introduction :
      (w : AgentWorld Table) (session fresh : ℕ) (mac ip b : List ℕ) (port side : ℕ)
      → read_peer env.inet (introduction mac b port side)
        ≡ some (record { mac_dst = some mac; ip_dst = some ip; port = some port; side = some side })
      → handle_message tables env w session (introduction mac b port side) fresh
        ≡ some (meeting w session fresh mac ip port side, true)
  unfolding handle_message agent_dispatch_op op_p2p_request dnds_message_get_pdu
      dn_message_get_operation out_used at_message at_dnm if_tag reach
  handle-introduction w session fresh mac ip b port side e = rw e refl

  -- An introduction, from the message of `p2pRequest` to the connection between the peers. For a MAC
  -- address of six bytes, an IP address that `inet_pton` can read, a port below 100000 and a side, the
  -- message can be made. An agent that handles it on a connection that has a session and has not been
  -- freed makes a new session with its own passport and that MAC address, and calls `net_p2p` for it
  -- with a text for the same IP address, the decimal digits of that port and that side; of its
  -- sessions only the one at the new address changes.
  pub introduction-connects :
      (w : AgentWorld tables.Table) (netc fresh : ℕ) (mac ip b : List ℕ) (port side : ℕ)
      → length mac ≡ 6
      → env.inet.inet_pton ip ≡ some b
      → port < 100000
      → (w.ext_ptr netc == null) ≡ false
      → w.netc_freed netc ≡ false
      → let passport = (w.sessions (w.ext_ptr netc)).passport in
        (m : DndsMessage) × (ip' : List ℕ) × (digits : List ℕ) × (w' : AgentWorld tables.Table)
        × (p2p_request_message env.inet mac ip port side ≡ some m)
        × (env.inet.inet_pton ip' ≡ some b)
        × (agent_on_input tables env w netc ((m, fresh) ∷ []) ≡ some w')
        × (digits_value 0 digits ≡ some port)
        × (w'.out ≡ w.out ++ (net_p2p ip' digits side passport fresh ∷ []))
        × ((w'.sessions fresh).passport ≡ passport)
        × ((w'.sessions fresh).mac_dst ≡ some mac)
        × ((a : ℕ) → w'.sessions a ≡ (if a == fresh then w'.sessions fresh else w.sessions a))
  unfolding agent_on_input handle_queue emit_event put_agent_session update
  introduction-connects w netc fresh mac ip b port side six is_b small has alive =
      let (ip', to_text, to_b) = printed env.inet ip b is_b in
      let (made, peer_read) =
        p2p_request_message-read_peer env.inet mac ip ip' b port side six is_b to_text
          (omega arith) in
      (
        introduction mac b port side,
        ip',
        port_str port,
        meeting w (w.ext_ptr netc) fresh mac ip' port side,
        made,
        to_b,
        rw (has, handle-introduction w (w.ext_ptr netc) fresh mac ip' b port side peer_read, alive)
            refl,
        (port_str_lem port small).0,
        refl,
        ground arith,
        ground arith,
        λ a. ground arith,
      )
