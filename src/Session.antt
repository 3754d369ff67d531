-- ===== src/Session.antt =====
-- nvswitch/src/session.h and session.c: a session of the switch, at an address of a heap of
-- sessions. Its list of MAC addresses belongs to it alone and is a plain list; a string is a list
-- of bytes, and an unset one is empty.
use netvirt.Prelude.{ℕ, List, [], ◌∷◌, Option, none}
use netvirt.Links.{null, update}

-- `SESSION_STATE_AUTHED`, `…_NOT_AUTHED`, `…_WAIT_STEPUP` and `…_PURGE`
pub data SessionState : Type 0 where
  authed not_authed wait_stepup purge : SessionState

-- `node_info_t` of libnvcore/src/cert.h
pub record NodeInfo : Type 0 where
  pub uuid : List ℕ
  pub network_uuid : List ℕ
  pub network_id : List ℕ
  pub v : ℕ

-- `struct session`
pub record Session : Type 0 where
  pub state : SessionState
  pub ip : List ℕ
  pub cert_name : Option (List ℕ)
  pub node_info : Option NodeInfo
  pub id : ℕ
  pub ip_local : List ℕ
  pub tun_mac_addr : List ℕ
  pub netc : ℕ
  pub vnetwork : ℕ
  pub mac_addr : List ℕ
  pub mac_list : List (List ℕ)
  pub next : ℕ
  pub prev : ℕ

abbrev pub Heap : Type 0
Heap = ℕ → Session

-- What `session_new` returns: `calloc` and the first state. An allocation that fails is not
-- modelled.
unfoldable pub session_new : Session
session_new = record {
  state = not_authed;
  ip = [];
  cert_name = none;
  node_info = none;
  id = 0;
  ip_local = [];
  tun_mac_addr = [];
  netc = null;
  vnetwork = null;
  mac_addr = [];
  mac_list = [];
  next = null;
  prev = null;
}

unfoldable pub session_add_mac : Session → List ℕ → Session
session_add_mac session mac_addr = record session { mac_list = mac_addr ∷ session.mac_list }

-- Assignments to one field of a session of the heap.
unfoldable pub set_next : Heap → ℕ → ℕ → Heap
unfolding update
set_next h p q = update h p (record (h p) { next = q })

unfoldable pub set_prev : Heap → ℕ → ℕ → Heap
unfolding update
set_prev h p q = update h p (record (h p) { prev = q })

unfoldable pub set_id : Heap → ℕ → ℕ → Heap
unfolding update
set_id h p n = update h p (record (h p) { id = n })
