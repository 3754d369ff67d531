-- ===== src/Switch.antt =====
-- nvswitch/src/switch.c and request.c: the state that the handlers of the switch share, and what
-- they send. Sessions, networks and connections stand at addresses; a call of the transport, of
-- the control link or of the allocator is an event, kept in the order of the calls.
pub mod Forward
pub mod Handlers
pub mod Input
use netvirt.Prelude.{ℕ, ◌==◌, if◌then◌else◌, List, [], ◌∷◌, ◌++◌, Option, none, some}
use netvirt.Links.{update}
use netvirt.Session.{Session, Heap}
use netvirt.Vnetwork.{Vnetwork}

-- `NET_UNSECURE`, `NET_SECURE_ADH` and `NET_SECURE_RSA` of libnvcore/src/netbus.h
pub data Security : Type 0 where
  unsecure secure_adh secure_rsa : Security

-- The fields of `netc_t` that the switch looks at; `host` is `peer->host`.
pub record Netc : Type 0 where
  pub security_level : Security
  pub host : List ℕ
  pub ext_ptr : ℕ

pub data Side : Type 0 where
  client server : Side

pub data AuthResult : Type 0 where
  success no_right secure_step_up : AuthResult

-- The messages that the switch sends.
pub data Msg : Type 0 where
  ethernet : List ℕ → Msg
  p2p_message : (mac_addr_dst ip_addr_dst : List ℕ) (port : ℕ) → Side → Msg
  auth_response : AuthResult → Msg
  netinfo_response : Msg

pub data Event : Type 0 where
  -- `net_send_msg` on a connection
  send : ℕ → Msg → Event
  -- `krypt_add_passport` and `net_step_up`
  step_up : ℕ → Event
  -- the part of `net_disconnect` below the switch
  drop_connection : ℕ → Event
  -- `update_node_status`
  status : (online : ℕ) (ip uuid network_uuid : List ℕ) → Event
  -- `session_free`
  free_session : ℕ → Event
  -- `query_provisioning`
  query_provisioning : ℕ → List ℕ → Event

pub record World (Table : Type 0) : Type 0 where
  pub sessions : Heap
  pub networks : ℕ → Vnetwork Table
  pub netcs : ℕ → Netc
  pub find_uuid : List ℕ → ℕ
  pub find_id : List ℕ → ℕ
  pub out : List Event

module _ {Table : Type 0} where
  unfoldable pub emit : World Table → Event → World Table
  emit w e = record w { out = w.out ++ (e ∷ []) }

  unfoldable pub put_session : World Table → ℕ → Session → World Table
  unfolding update
  put_session w p s = record w { sessions = update w.sessions p s }

  unfoldable pub put_network : World Table → ℕ → Vnetwork Table → World Table
  unfolding update
  put_network w p v = record w { networks = update w.networks p v }
