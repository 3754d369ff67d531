-- ===== src/Agent/Handlers/Online.antt =====
-- How an agent comes online.
use netvirt.Prelude.{
  ℕ, ◌==◌, ◌≤◌, leb, ◌≡◌, refl, arith, true, false, List, [], ◌∷◌, ◌++◌, length, some,
}
use netvirt.Links.{null, update}
use netvirt.Tables.{HashTable}
use netvirt.Dnds.Types.{
  DndsMessage, DnChoice, dnm_pdu, auth_response_op, netinfo_response_op, netinfo_request_op,
  PduChoice, DnopPr, no_str,
}
use netvirt.Dnds.Access.{
  AddressText, given, out_given, out_used, written, reach, at_message, if_tag, at_dnm, put_dn,
  at_dnop, set_dn, get_dn, copied,
}
use netvirt.Dnds.Access.Laws.{address_in-inet_pton}
use netvirt.Dnds.Fields.Macs.{bytes_of_six}
use netvirt.Dnds.Message.{
  dnds_message_new, dnds_message_set_channel, dnds_message_set_pdu, dnds_message_get_pdu,
  dn_message_set_seq_number, dn_message_set_ack_number, dn_message_set_operation,
  dn_message_get_operation,
}
use netvirt.Dnds.Dn.{
  auth_response_set_result, auth_response_get_result, netinfo_request_set_ip_local,
  netinfo_request_set_mac_addr,
}
use netvirt.Agent.{
  AgentWorld, Surroundings, ip_conf, authed, send, connected, interface_up, emit_event,
  put_agent_session,
}
use netvirt.Agent.Messages.{
  numbered_message, netinfo_request_message, auth_response_message, netinfo_response_message,
}
use netvirt.Agent.Connection.{set_state, transmit_netinfo_request}
use netvirt.Agent.Handlers.{
  scan_address, op_netinfo_response, op_auth_response, agent_dispatch_op, handle_message,
  handle_queue, agent_on_input,
}

abbrev answer : (seq : ℕ) → DnopPr → DnChoice → DndsMessage
answer seq operation choice = record {
  version = 1;
  channel = 0;
  present = dnm_pdu;
  choice =
      PduChoice.dnm
        (record { seq_number = seq; ack_number = 0; present = operation; choice = choice });
}

abbrev admitted : DndsMessage
admitted = answer 1 auth_response_op (DnChoice.auth_response 1)

abbrev interface : DndsMessage
interface = answer 1 netinfo_response_op DnChoice.blank

abbrev about_me : List ℕ → List ℕ → DndsMessage
about_me b hwaddr = answer 0 netinfo_request_op (
    DnChoice.netinfo_request (record {
      ip_local = record { buf = some b; size = 4 };
      mac_addr = record { buf = some hwaddr; size = 6 };
    }))

auth_response-admitted : auth_response_message 1 ≡ some admitted
unfolding auth_response_message numbered_message dnds_message_new dnds_message_set_channel
    dnds_message_set_pdu dn_message_set_seq_number dn_message_set_ack_number
    dn_message_set_operation auth_response_set_result set_dn at_message at_dnm at_dnop if_tag reach
    written put_dn
auth_response-admitted = refl

netinfo_response-interface : netinfo_response_message ≡ some interface
unfolding netinfo_response_message numbered_message dnds_message_new dnds_message_set_channel
    dnds_message_set_pdu dn_message_set_seq_number dn_message_set_ack_number
    dn_message_set_operation at_message at_dnm if_tag reach put_dn
netinfo_response-interface = refl

netinfo_request-about_me :
    (inet : AddressText) (ip b hwaddr : List ℕ)
    → inet.inet_pton ip ≡ some b
    → length hwaddr ≡ 6
    → netinfo_request_message inet ip hwaddr ≡ some (about_me b hwaddr)
unfolding netinfo_request_message numbered_message dnds_message_new dnds_message_set_channel
    dnds_message_set_pdu dn_message_set_seq_number dn_message_set_ack_number
    dn_message_set_operation netinfo_request_set_ip_local netinfo_request_set_mac_addr given set_dn
    at_message at_dnm at_dnop if_tag reach written put_dn copied
netinfo_request-about_me inet ip b hwaddr is_b six =
    rw (address_in-inet_pton inet ip b no_str is_b, bytes_of_six hwaddr six) refl

module _ (tables : HashTable) (env : Surroundings) where
  open tables use {Table}

  module _ (w : AgentWorld Table) (text word b : List ℕ) (at_text : w.files ip_conf ≡ some text)
      (at_word : env.first_word text ≡ some word) (is_b : env.inet.inet_pton env.local_ip ≡ some b)
      (six : length env.hwaddr ≡ 6) (short : leb (length word) 15 ≡ true) where
    scan-word :
        (v : AgentWorld Table)
        → scan_address tables env v text ≡ some (record v { ip_address = word })
    unfolding scan_address
    scan-word v = rw (scan_address, at_word, short) refl

    abbrev after_admitted : ℕ → AgentWorld Table
    after_admitted session = record w {
      ip_address = word;
      out =
          (w.out ++ (connected word ∷ []))
          ++ (send (w.sessions session).netc (about_me b env.hwaddr) ∷ []);
    }

    handle-admitted :
        (session fresh : ℕ)
        → handle_message tables env w session admitted fresh ≡ some (after_admitted session, true)
    unfolding handle_message agent_dispatch_op op_auth_response transmit_netinfo_request
        dnds_message_get_pdu dn_message_get_operation auth_response_get_result out_given out_used
        at_message at_dnm if_tag reach get_dn at_dnop emit_event
    handle-admitted session fresh =
        rw
          (
            at_text,
            scan-word w,
            netinfo_request-about_me env.inet env.local_ip b env.hwaddr is_b six,
          )
          refl

    netinfo_response-authed :
        (session : ℕ) (v : AgentWorld Table)
        → v.files ip_conf ≡ some text
        → op_netinfo_response tables env v session
          ≡ some (
              set_state tables env
                (emit_event (record v { ip_address = word }) (interface_up word))
                session
                authed)
    unfolding op_netinfo_response
    netinfo_response-authed session v at_text' =
        rw (op_netinfo_response, at_text', scan-word v) refl

    handle-interface :
        (session fresh : ℕ) (v : AgentWorld Table)
        → v.files ip_conf ≡ some text
        → handle_message tables env v session interface fresh
          ≡ some (
            set_state tables env
                (emit_event (record v { ip_address = word }) (interface_up word))
                session
                authed,
            true,
          )
    unfolding handle_message agent_dispatch_op dnds_message_get_pdu dn_message_get_operation
        out_used at_message at_dnm if_tag reach
    handle-interface session fresh v at_text' = rw (netinfo_response-authed session v at_text') refl

-- An agent comes online when the switch admits it and answers about its interface. Both messages
-- of the switch can be made, and so can the one of the agent. If the connection has a session and has
-- not been freed, the file with the address of the interface has a word of at most fifteen bytes,
-- `inet_pton` can read the local address, and the tap device has a MAC address of six bytes, then the agent handles the two messages: it reports
-- the connection, sends the message about its interface, brings the interface up with the word as its
-- address, and the session is authenticated.
pub comes_online :
    (tables : HashTable) (env : Surroundings) (w : AgentWorld tables.Table) (netc : ℕ)
    (text word b : List ℕ) (f1 f2 : ℕ)
    → w.netc_freed netc ≡ false
    → w.files ip_conf ≡ some text
    → env.first_word text ≡ some word
    → env.inet.inet_pton env.local_ip ≡ some b
    → length env.hwaddr ≡ 6
    → length word ≤ 15
    → (w.ext_ptr netc == null) ≡ false
    → let session = w.ext_ptr netc in
      (yes : DndsMessage) × (info : DndsMessage) × (mine : DndsMessage) × (w' : AgentWorld
        tables.Table)
      × (auth_response_message 1 ≡ some yes)
      × (netinfo_response_message ≡ some info)
      × (netinfo_request_message env.inet env.local_ip env.hwaddr ≡ some mine)
      × (agent_on_input tables env w netc ((yes, f1) ∷ (info, f2) ∷ []) ≡ some w')
      × (w'.out
          ≡ ((w.out ++ (connected word ∷ [])) ++ (send (w.sessions session).netc mine ∷ []))
            ++ (interface_up word ∷ []))
      × (w'.ip_address ≡ word)
      × ((w'.sessions session).state ≡ authed)
unfolding agent_on_input handle_queue set_state emit_event put_agent_session update
comes_online tables env w netc text word b f1 f2 alive at_text at_word is_b six fits has =
    let session = w.ext_ptr netc in
    let short : leb (length word) 15 ≡ true = ground arith in
    let w1 = after_admitted tables env w text word b at_text at_word is_b six short session in
    (
      admitted,
      interface,
      about_me b env.hwaddr,
      set_state tables env (emit_event (record w1 { ip_address = word }) (interface_up word))
          session authed,
      auth_response-admitted,
      netinfo_response-interface,
      netinfo_request-about_me env.inet env.local_ip b env.hwaddr is_b six,
      rw
          (
            has,
            handle-admitted tables env w text word b at_text at_word is_b six short session f1,
            alive,
            handle-interface tables env w text word b at_text at_word is_b six short session f2 w1
                at_text,
            alive,
          )
          refl,
      refl,
      refl,
      ground arith,
    )
