-- ===== src/Switch/Handlers.antt =====
-- nvswitch/src/switch.c and request.c: what the switch does when a connection comes up, asks to
-- be authenticated, has been secured, and goes down. The world and what it sends are those of
-- `Switch`; `none` in `node_info` also stands for a pointer to freed memory.
pub mod Admission
pub mod Joining
pub mod Departure
pub mod Faults
use netvirt.Prelude.{
  ℕ, ◌==◌, not, Bool, true, false, if◌then◌else◌, ℤ, pos, minus_one, List, [], ◌∷◌, take, Option,
  none, some,
}
use netvirt.Links.{null, update}
use netvirt.Tables.{HashTable, ctable_find, ctable_insert, ctable_erase, ftable_erase}
use netvirt.Linkst.{linkst_disjoin}
use netvirt.Session.{
  Session, SessionState, NodeInfo, authed, not_authed, wait_stepup, purge, session_new,
}
use netvirt.Vnetwork.{Vnetwork, vnetwork_add_session, vnetwork_del_session}
use netvirt.Cert.{Parsed, invalid, undefined, node, cn2node_info, altname2node_info}
use netvirt.Switch.{
  World, Netc, Security, unsecure, secure_adh, secure_rsa, send, step_up, drop_connection, status,
  free_session, query_provisioning, auth_response, netinfo_response, success, no_right,
  secure_step_up, emit, put_session, put_network,
}

-- How a handler ends: in a state, in a use of memory that is not there, or not at all.
pub data Outcome {ℓ} (A : Type ℓ) : Type ℓ where
  done : A → Outcome A
  wild : Outcome A
  endless : Outcome A

abbrev pub is_not_authed : SessionState → Bool
is_not_authed authed = false
is_not_authed not_authed = true
is_not_authed wait_stepup = false
is_not_authed purge = false

abbrev pub is_wait_stepup : SessionState → Bool
is_wait_stepup authed = false
is_wait_stepup not_authed = false
is_wait_stepup wait_stepup = true
is_wait_stepup purge = false

abbrev pub is_unsecure : Security → Bool
is_unsecure unsecure = true
is_unsecure secure_adh = false
is_unsecure secure_rsa = false

-- `node_info->v == 1` takes the UUID of the network from the network.
unfoldable pub name_network : NodeInfo → List ℕ → NodeInfo
name_network info uuid = if info.v == 1 then record info { network_uuid = take 36 uuid } else info

module _ (tables : HashTable) where
  open tables use {Table}

  -- The end of `on_secure`, from the moment that the session knows its node.
  unfoldable pub admit : World Table → ℕ → NodeInfo → Outcome (World Table)
  admit w session info =
      let s = w.sessions session in
      let vnet = w.networks s.vnetwork in
      let info' = name_network info vnet.uuid in
      let s' = record s { node_info = some info'; state = authed } in
      let w' = put_session w session s' in
      if ctable_find tables vnet.atable info.uuid == null
      then Outcome.done (
          emit (put_session w session (record s { node_info = some info }))
            (send s.netc (auth_response no_right)))
      else elim (vnetwork_add_session w'.sessions vnet session) [
        | none ↦ Outcome.endless
        | some (h, vnet') ↦ Outcome.done (
            emit
              (emit (put_network (record w' { sessions = h }) s.vnetwork vnet')
                (status 1 s.ip info'.uuid info'.network_uuid))
              (send s.netc (auth_response success)))
      ]

  unfoldable pub admit_parsed : World Table → ℕ → Parsed → Outcome (World Table)
  admit_parsed w session invalid = wild
  admit_parsed w session undefined = wild
  admit_parsed w session (node info) = admit w session info

  -- The two names are what OpenSSL reads from the certificate of the peer. Without any the node
  -- has been freed and the session still points at it.
  unfoldable pub on_secure :
      World Table → ℕ → (altname cname : Option (List ℕ)) → Outcome (World Table)
  on_secure w session (some altname) cname =
      if is_wait_stepup (w.sessions session).state
      then admit_parsed w session (altname2node_info altname)
      else done w
  on_secure w session none (some cn) =
      if is_wait_stepup (w.sessions session).state
      then admit_parsed w session (cn2node_info cn)
      else done w
  on_secure w session none none =
      if is_wait_stepup (w.sessions session).state
      then Outcome.done (put_session w session (record (w.sessions session) { node_info = none }))
      else done w

  -- `authRequest` from the lookup of the network on: `info` is what `cn2node_info` read.
  unfoldable pub join_network :
      World Table → ℕ → (cert_name : List ℕ) → NodeInfo → ℕ → Outcome (ℤ × World Table)
  join_network w session cert_name info vnetwork =
      let s = record (w.sessions session) { node_info = some info; vnetwork = vnetwork } in
      let vnet = w.networks vnetwork in
      let info' = name_network info vnet.uuid in
      let s' = record s { node_info = some info'; cert_name = some cert_name } in
      let entered =
        put_network w vnetwork
          (record vnet { ctable = ctable_insert tables vnet.ctable info'.uuid session }) in
      let answered =
        emit (put_session entered session (record s' { state = authed }))
          (send s.netc (auth_response success)) in
      if vnetwork == null
      then Outcome.done
          (minus_one, emit (put_session w session s) (send s.netc (auth_response no_right)))
      else if is_unsecure (w.netcs s.netc).security_level
      then elim (on_secure answered session none none) [
        | done w' ↦ Outcome.done (pos 0, w')
        | wild ↦ Outcome.wild
        | endless ↦ Outcome.endless
      ]
      else Outcome.done (
        pos 0,
        emit
            (emit (put_session entered session (record s' { state = wait_stepup }))
              (send s.netc (auth_response secure_step_up)))
            (step_up s.netc),
      )

  unfoldable pub auth_request : World Table → ℕ → List ℕ → Outcome (ℤ × World Table)
  auth_request w session cert_name =
      if is_not_authed (w.sessions session).state
      then elim (cn2node_info cert_name) [
        | invalid ↦
            Outcome.done
              (minus_one, put_session w session (record (w.sessions session) { node_info = none }))
        | undefined ↦ Outcome.wild
        | node info ↦
            join_network w session cert_name info
              (if info.v == 1 then w.find_id info.network_id else w.find_uuid info.network_uuid)
      ]
      else Outcome.done (minus_one, w)

  unfoldable pub prov_request : World Table → ℕ → List ℕ → World Table
  prov_request w session provcode = emit w (query_provisioning session provcode)

  unfoldable pub handle_netinfo_request :
      World Table → ℕ → (ip_local mac_addr : List ℕ) → World Table
  handle_netinfo_request w session ip_local mac_addr =
      let s = record (w.sessions session) { ip_local = ip_local; tun_mac_addr = mac_addr } in
      emit (put_session w session s) (send s.netc netinfo_response)

  -- The new session is at the address `fresh`.
  unfoldable pub on_connect : World Table → (netc fresh : ℕ) → World Table
  on_connect w netc fresh =
      let c = w.netcs netc in
      record (put_session w fresh (record session_new { ip = c.host; netc = netc })) {
        netcs = update w.netcs netc (record c { ext_ptr = fresh });
      }

  -- `while (session->mac_list != NULL)`
  unfoldable pub erase_macs : Table → List (List ℕ) → Table
  erase_macs ftable [] = ftable
  erase_macs ftable (mac_addr ∷ mac_list) =
      erase_macs (ftable_erase tables ftable mac_addr) mac_list

  -- The session leaves its network.
  unfoldable pub leave : World Table → ℕ → (uuid : List ℕ) → World Table
  leave w session uuid =
      let s = record (w.sessions session) { mac_list = [] } in
      let vnet = w.networks s.vnetwork in
      let vnet' = record vnet {
        linkst = (linkst_disjoin vnet.linkst s.id).1;
        ftable = erase_macs vnet.ftable (w.sessions session).mac_list;
        ctable = ctable_erase tables vnet.ctable uuid;
      } in
      let w' = put_session w session s in
      let (h, vnet'') = vnetwork_del_session w'.sessions vnet' session in
      put_network (record w' { sessions = h }) s.vnetwork vnet''

  unfoldable pub farewell : World Table → ℕ → NodeInfo → World Table
  farewell w session info =
      let s = w.sessions session in
      emit (emit w (status 0 s.ip info.uuid info.network_uuid)) (free_session session)

  unfoldable pub on_disconnect : World Table → (netc : ℕ) → Outcome (World Table)
  on_disconnect w netc =
      let session = (w.netcs netc).ext_ptr in
      let s = w.sessions session in
      if session == null
      then Outcome.done w
      else if is_not_authed s.state
      then Outcome.done (emit w (free_session session))
      else elim s.node_info [
        | none ↦ Outcome.wild
        | some info ↦
            Outcome.done
              (farewell (if s.vnetwork == null then w else leave w session info.uuid) session info)
      ]

  -- `net_disconnect` of libnvcore/src/netbus.c
  unfoldable pub net_disconnect : World Table → ℕ → Outcome (World Table)
  net_disconnect w netc = if netc == null then Outcome.done w else elim (on_disconnect w netc) [
    | done w' ↦ Outcome.done (emit w' (drop_connection netc))
    | wild ↦ Outcome.wild
    | endless ↦ Outcome.endless
  ]

  unfoldable pub session_terminate : World Table → ℕ → Outcome (World Table)
  session_terminate w session = elim (net_disconnect w (w.sessions session).netc) [
    | done w' ↦ Outcome.done (emit w' (free_session session))
    | wild ↦ Outcome.wild
    | endless ↦ Outcome.endless
  ]
