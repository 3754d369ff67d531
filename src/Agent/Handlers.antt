-- ===== src/Agent/Handlers.antt =====
-- nvagent/src/agent.c: what the agent does with a message. `none` is as in `Agent.Connection`.
pub mod Online
pub mod Introduced
pub mod Storage
pub mod Provision
pub mod Faults
use netvirt.Prelude.{
  ℕ, ◌==◌, ◌&&◌, leb, length, Bool, true, false, List, [], ◌∷◌, Option, none, some, if◌then◌else◌,
}
use netvirt.Links.{null, update}
use netvirt.Tables.{HashTable}
use netvirt.Dnds.Types.{
  DndsMessage, Str, PduPr, DnopPr, no_pdu, dnm_pdu, dsm_pdu, ethernet_pdu, no_dnop, auth_request_op,
  auth_response_op, netinfo_request_op, netinfo_response_op, prov_request_op, prov_response_op,
  p2p_request_op, p2p_response_op, dn_terminate_op,
}
use netvirt.Dnds.Calls.{put, get, ◌>>=◌}
use netvirt.Dnds.Message.{dnds_message_get_pdu, dnds_message_get_ethernet, dn_message_get_operation}
use netvirt.Dnds.Dn.{
  auth_response_get_result, prov_response_get_certificate, prov_response_get_certificate_key,
  prov_response_get_trusted_cert, prov_response_get_ip_address,
}
use netvirt.Agent.{
  AgentWorld, AgentSession, AgentState, Surroundings, File, certificate, privatekey, trusted_cert,
  ip_conf, authed, not_authed, wait_answer, down, unset, send, write_frame, interface_up,
  add_passport, set_rsa, connected, disconnected, reconnect, emit_event, put_agent_session,
}
use netvirt.Agent.Messages.{
  ethernet_message, netinfo_request_message, prov_request_message, auth_request_message,
}
use netvirt.Agent.Peers.{p2p_on_disconnect, p2p_find_session, op_p2p_request}
use netvirt.Agent.Connection.{
  set_state, tunnel_in, tunnel_out, agent_on_disconnect, agent_net_disconnect, terminate,
  transmit_netinfo_request, transmit_prov_request, transmit_register, agent_on_secure, reconnected,
  is_authed, is_not_authed, is_down,
}

abbrev pub same_file : File → File → Bool
same_file certificate certificate = true
same_file privatekey privatekey = true
same_file trusted_cert trusted_cert = true
same_file ip_conf ip_conf = true
same_file f g = false

abbrev pub buf_of : Option Str → Option (List ℕ)
buf_of none = none
buf_of (some s) = s.buf

-- `pki_passport_load_from_file` of libnvcore/src/cert.c, for the three files that are named; NULL if
-- one of them is not there.
unfoldable pub pki_passport_load_from_file : Surroundings → (File → Option (List ℕ)) → ℕ
pki_passport_load_from_file env files = elim (files certificate) [
  | none ↦ null
  | some cert ↦ elim (files privatekey) [
    | none ↦ null
    | some pkey ↦ elim (files trusted_cert) [
      | none ↦ null
      | some tcert ↦ env.new_passport cert pkey tcert
    ]
  ]
]

module _ (tables : HashTable) (env : Surroundings) where
  open tables use {Table}

  -- `fscanf` into the sixteen bytes of the address of the interface, which it may leave as they were;
  -- a longer word goes past their end.
  unfoldable pub scan_address : AgentWorld Table → List ℕ → Option (AgentWorld Table)
  scan_address w text = elim (env.first_word text) [
    | none ↦ Option.some w
    | some word ↦
        if leb (length word) 15 then Option.some (record w { ip_address = word }) else Option.none
  ]

  unfoldable pub op_netinfo_response : AgentWorld Table → (session : ℕ) → Option (AgentWorld Table)
  op_netinfo_response w session = elim (w.files ip_conf) [
    | none ↦ Option.some w
    | some text ↦ scan_address w text >>= λ w'.
        Option.some
          (set_state tables env (emit_event w' (interface_up w'.ip_address)) session authed)
  ]

  unfoldable pub op_auth_response :
      AgentWorld Table → (session : ℕ) → DndsMessage → Option (AgentWorld Table)
  op_auth_response w session msg = do
    read ← get none (auth_response_get_result (some msg) true)
    result ← read
    if result == 1
        then (elim (w.files ip_conf) [ none ↦ Option.some w | some text ↦ scan_address w text ]
            >>= λ w'.
                transmit_netinfo_request tables env (emit_event w' (connected w'.ip_address))
                  session)
        else some w

  -- `fopen` for writing and `fwrite`, with what comes after them; if `fopen` fails, the caller
  -- returns. A NULL text is not there to be written.
  unfoldable pub write_file :
      AgentWorld Table
      → File
      → Option (List ℕ)
      → (AgentWorld Table → Option (AgentWorld Table))
      → Option (AgentWorld Table)
  write_file w f text k =
      if env.writable f
      then (text >>= λ bytes.
          k (record w { files = λ g. if same_file g f then some bytes else w.files g }))
      else some w

  unfoldable pub load_and_register : AgentWorld Table → (session : ℕ) → Option (AgentWorld Table)
  load_and_register w session =
      let passport = pki_passport_load_from_file env w.files in
      let s = record (w.sessions session) { passport = passport } in
      let w' = put_agent_session w session s in
      transmit_register tables env (emit_event w' (add_passport s.netc passport)) s.netc

  unfoldable pub op_prov_response :
      AgentWorld Table → (session : ℕ) → DndsMessage → Option (AgentWorld Table)
  op_prov_response w session msg = do
    cert ← get none (prov_response_get_certificate (some msg) true)
    elim (buf_of cert) [
      | none ↦ Option.some w
      | some text ↦ write_file w certificate (Option.some text) (λ w1. do
        key ← get none (prov_response_get_certificate_key (some msg) true)
        write_file w1 privatekey (buf_of key) (λ w2. do
          tcert ← get none (prov_response_get_trusted_cert (some msg) true)
          write_file w2 trusted_cert (buf_of tcert) (λ w3. do
            ip ← get (some w3.ip_address) (prov_response_get_ip_address env.inet (some msg) true)
            ip_address ← ip
            write_file (record w3 { ip_address = ip_address }) ip_conf (some ip_address)
                (λ w4. load_and_register w4 session))))
    ]

  unfoldable pub agent_dispatch_op :
      AgentWorld Table → (session : ℕ) → DndsMessage → (fresh : ℕ) → Option (AgentWorld Table)
  agent_dispatch_op w session msg fresh = do
    read ← get none (dn_message_get_operation (some msg) true)
    operation ← read
    elim operation [
      | prov_response_op ↦ op_prov_response w session msg
      | auth_response_op ↦ op_auth_response w session msg
      | netinfo_response_op ↦ op_netinfo_response w session
      | p2p_request_op ↦ op_p2p_request tables env w session msg fresh
      | _ ↦ terminate tables env w session
    ]

  -- One message, and whether the loop goes on.
  unfoldable pub handle_message :
      AgentWorld Table
      → (session : ℕ) → DndsMessage
      → (fresh : ℕ) → Option (AgentWorld Table × Bool)
  handle_message w session msg fresh = do
    read ← get none (dnds_message_get_pdu (some msg) true)
    pdu ← read
    elim pdu [
      | dnm_pdu ↦ agent_dispatch_op w session msg fresh >>= λ w'. Option.some (w', true)
      | ethernet_pdu ↦ tunnel_out tables env w msg >>= λ w'. Option.some (w', true)
      | _ ↦ terminate tables env w session >>= λ w'. Option.some (w', false)
    ]

  -- The messages of the queue of a connection, each with what `calloc` returns for it. After a
  -- message the queue is used again, and it belongs to the connection.
  unfoldable pub handle_queue :
      AgentWorld Table → (netc session : ℕ) → List (DndsMessage × ℕ) → Option (AgentWorld Table)
  handle_queue w netc session [] = some w
  handle_queue w netc session ((msg, fresh) ∷ rest) = do
    (w', goes_on) ← handle_message w session msg fresh
    let rest_of = handle_queue w' netc session rest
    if goes_on then (if w'.netc_freed netc then none else rest_of) else some w'

  -- A session that is NULL is taken to be used by the first message.
  unfoldable pub agent_on_input :
      AgentWorld Table → (netc : ℕ) → List (DndsMessage × ℕ) → Option (AgentWorld Table)
  agent_on_input w netc [] = some w
  agent_on_input w netc (first ∷ rest) =
      if w.ext_ptr netc == null then none else handle_queue w netc (w.ext_ptr netc) (first ∷ rest)
