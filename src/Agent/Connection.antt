-- ===== src/Agent/Connection.antt =====
-- nvagent/src/agent.c: what the agent sends, and what it does when its connection comes up or goes
-- down, and with a frame. `none` is a use of memory that has been freed, is not there, or has no value
-- yet. The callbacks of `agent_cfg->ev` are set.
use netvirt.Prelude.{
  ℕ, ◌==◌, ◌&&◌, ◌||◌, Bool, true, false, List, Option, none, some, if◌then◌else◌,
}
use netvirt.Links.{null, update}
use netvirt.Tables.{HashTable}
use netvirt.Dnds.Types.{DndsMessage}
use netvirt.Dnds.Calls.{get, ◌>>=◌}
use netvirt.Dnds.Message.{dnds_message_get_ethernet}
use netvirt.Agent.{
  AgentWorld, AgentState, Surroundings, authed, not_authed, wait_answer, down, unset, send,
  write_frame, set_rsa, disconnected, reconnect, emit_event, put_agent_session,
}
use netvirt.Agent.Messages.{
  ethernet_message, netinfo_request_message, prov_request_message, auth_request_message,
}
use netvirt.Agent.Peers.{p2p_on_disconnect, p2p_find_session}

abbrev pub is_authed : AgentState → Bool
is_authed authed = true
is_authed not_authed = false
is_authed wait_answer = false
is_authed down = false
is_authed unset = false

abbrev pub is_not_authed : AgentState → Bool
is_not_authed authed = false
is_not_authed not_authed = true
is_not_authed wait_answer = false
is_not_authed down = false
is_not_authed unset = false

abbrev pub is_down : AgentState → Bool
is_down authed = false
is_down not_authed = false
is_down wait_answer = false
is_down down = true
is_down unset = false

-- `net_send_msg` of libnvcore/src/netbus.c: whether it answers anything but -1
unfoldable pub net_send_msg : Surroundings → (netc : ℕ) → DndsMessage → Bool
net_send_msg env netc msg =
    env.encodes msg && ((env.unsecure netc || env.krypt_secure netc) && env.flushes netc msg)

module _ (tables : HashTable) (env : Surroundings) where
  open tables use {Table}

  unfoldable pub set_state : AgentWorld Table → ℕ → AgentState → AgentWorld Table
  set_state w session state =
      put_agent_session w session (record (w.sessions session) { state = state })

  unfoldable pub tunnel_in :
      AgentWorld Table → (session : ℕ) → (frame : List ℕ) → Option (AgentWorld Table)
  tunnel_in w session framebuf =
      let p2p_session = p2p_find_session tables w framebuf in
      let s = w.sessions (if p2p_session == null then session else p2p_session) in
      if is_authed s.state
      then (ethernet_message framebuf >>= λ msg. some (emit_event w (send s.netc msg)))
      else some w

  unfoldable pub tunnel_out : AgentWorld Table → DndsMessage → Option (AgentWorld Table)
  tunnel_out w msg = do
    frame ← get none (dnds_message_get_ethernet (some msg) true)
    framebuf ← frame
    some (emit_event w (write_frame framebuf))

  unfoldable pub agent_on_disconnect : AgentWorld Table → (netc : ℕ) → AgentWorld Table
  unfolding update
  agent_on_disconnect w netc =
      let session = w.ext_ptr netc in
      let w' = record w { ext_ptr = update w.ext_ptr netc null } in
      if session == null
      then w'
      else if is_down (w.sessions session).state
      then w'
      else emit_event (emit_event (set_state w' session down) disconnected) (reconnect session)

  -- `net_disconnect` of libnvcore/src/netbus.c
  unfoldable pub agent_net_disconnect : AgentWorld Table → (netc : ℕ) → Option (AgentWorld Table)
  unfolding update
  agent_net_disconnect w netc = if netc == null then some w else do
    let leave =
        if w.is_p2p netc then p2p_on_disconnect tables w netc else some (agent_on_disconnect w netc)
    w' ← leave
    some (record w' {
      ext_ptr = update w'.ext_ptr netc null;
      netc_freed = update w'.netc_freed netc true;
    })

  unfoldable pub terminate : AgentWorld Table → (session : ℕ) → Option (AgentWorld Table)
  terminate w session = do
    w' ← agent_net_disconnect (set_state w session down) (w.sessions session).netc
    if w'.session_freed session
        then none
        else some (put_agent_session w' session (record (w'.sessions session) { netc = null }))

  unfoldable pub transmit_netinfo_request :
      AgentWorld Table → (session : ℕ) → Option (AgentWorld Table)
  transmit_netinfo_request w session = do
    msg ← netinfo_request_message env.inet env.local_ip env.hwaddr
    some (emit_event w (send (w.sessions session).netc msg))

  unfoldable pub transmit_prov_request : AgentWorld Table → (netc : ℕ) → Option (AgentWorld Table)
  transmit_prov_request w netc = do
    prov_code ← env.prov_code
    msg ← prov_request_message prov_code
    some (emit_event w (send netc msg))

  unfoldable pub transmit_register : AgentWorld Table → (netc : ℕ) → Option (AgentWorld Table)
  transmit_register w netc = do
    session ← if w.ext_ptr netc == null then none else some (w.ext_ptr netc)
    let s = w.sessions session
    passport ← if s.passport == null then none else some s.passport
    msg ← auth_request_message (env.common_name passport)
    let sent = emit_event w (send netc msg)
    some (
        if net_send_msg env netc msg
        then emit_event (set_state sent session wait_answer) (set_rsa s.netc)
        else sent)

  unfoldable pub agent_on_secure : AgentWorld Table → (netc : ℕ) → Option (AgentWorld Table)
  agent_on_secure w netc =
      let s = w.sessions (w.ext_ptr netc) in
      if w.ext_ptr netc == null
      then none
      else if is_not_authed s.state
      then elim env.prov_code [
        | none ↦ transmit_register w netc
        | some code ↦
            if s.passport == null then transmit_prov_request w netc else transmit_register w netc
      ]
      else some w

  -- `try_to_reconnect`, once `net_client` returns a connection.
  unfoldable pub reconnected : AgentWorld Table → (session retry_netc : ℕ) → AgentWorld Table
  unfolding update
  reconnected w session retry_netc =
      let w' =
        put_agent_session w session
          (record (w.sessions session) { state = not_authed; netc = retry_netc }) in
      record w' { ext_ptr = update w.ext_ptr retry_netc session }
