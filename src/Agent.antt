-- ===== src/Agent.antt =====
-- nvagent/src/agent.c, p2p.c and session.h: the state of an agent. Sessions and connections stand at
-- addresses; what the agent does to the world around it is an event, in the order of the calls. Its
-- four files and the address of its interface are kept too.
pub mod Messages
pub mod Ports
pub mod Peers
pub mod Connection
pub mod Handlers
use netvirt.Prelude.{ℕ, Bool, List, [], ◌∷◌, ◌++◌, Option}
use netvirt.Links.{update}
use netvirt.Dnds.Types.{DndsMessage, Str}
use netvirt.Dnds.Access.{AddressText}

-- `SESSION_STATE_AUTHED`, `…_NOT_AUTHED`, `…_WAIT_ANSWER` and `…_DOWN`, and the 0 of `calloc`
pub data AgentState : Type 0 where
  authed not_authed wait_answer down unset : AgentState

-- `struct session` of the agent; the tap device is one for all.
pub record AgentSession : Type 0 where
  pub passport : ℕ
  pub netc : ℕ
  pub mac_dst : Option (List ℕ)
  pub state : AgentState

-- The files that `agent_cfg` names.
pub data File : Type 0 where
  certificate privatekey trusted_cert ip_conf : File

-- What `op_p2p_request` reads, `none` where it reads nothing.
pub record P2pPeer : Type 0 where
  pub mac_dst : Option (List ℕ)
  pub ip_dst : Option (List ℕ)
  pub port : Option ℕ
  pub side : Option ℕ

pub data AgentEvent : Type 0 where
  -- `net_send_msg` on a connection
  send : ℕ → DndsMessage → AgentEvent
  -- `tapcfg_write`
  write_frame : Str → AgentEvent
  -- `tapcfg_iface_set_status` and `tapcfg_iface_set_ipv4`
  interface_up : List ℕ → AgentEvent
  -- `krypt_add_passport` and `krypt_set_rsa` on a connection
  add_passport : ℕ → ℕ → AgentEvent
  set_rsa : ℕ → AgentEvent
  -- `net_p2p`: the address, the text of the port, the side, the passport and the session of the peer
  net_p2p : (ip_dst port_str : List ℕ) → (side passport session : ℕ) → AgentEvent
  -- `agent_cfg->ev.on_connect` and `on_disconnect`
  connected : List ℕ → AgentEvent
  disconnected : AgentEvent
  -- `pthread_create` of `try_to_reconnect`
  reconnect : ℕ → AgentEvent

pub record AgentWorld (Table : Type 0) : Type 0 where
  pub sessions : ℕ → AgentSession
  pub ext_ptr : ℕ → ℕ
  pub is_p2p : ℕ → Bool
  pub netc_freed : ℕ → Bool
  pub session_freed : ℕ → Bool
  pub ftable : Table
  pub files : File → Option (List ℕ)
  pub ip_address : List ℕ
  pub out : List AgentEvent

-- What the agent finds around it: the text of addresses, its local address and that of its tap
-- device, the common name of a passport, whether `der_encode` can encode a message, whether a
-- connection is without security and whether its handshake is over, whether the last `send` of the
-- queue that a message is flushed with succeeds, whether a file can be opened for writing, what
-- `fscanf` reads of a file, and where `calloc` puts the passport that is made of three files.
pub record Surroundings : Type 0 where
  pub inet : AddressText
  pub local_ip : List ℕ
  pub hwaddr : List ℕ
  pub prov_code : Option (List ℕ)
  pub common_name : ℕ → List ℕ
  pub encodes : DndsMessage → Bool
  pub unsecure : ℕ → Bool
  pub krypt_secure : ℕ → Bool
  pub flushes : ℕ → DndsMessage → Bool
  pub writable : File → Bool
  pub first_word : List ℕ → Option (List ℕ)
  pub new_passport : (certificate privatekey trusted_cert : List ℕ) → ℕ

module _ {Table : Type 0} where
  unfoldable pub emit_event : AgentWorld Table → AgentEvent → AgentWorld Table
  emit_event w e = record w { out = w.out ++ (e ∷ []) }

  unfoldable pub put_agent_session : AgentWorld Table → ℕ → AgentSession → AgentWorld Table
  unfolding update
  put_agent_session w p s = record w { sessions = update w.sessions p s }
