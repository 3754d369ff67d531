-- ===== src/Tests/Agents.antt =====
-- An agent with session 5 on connection 9.
use netvirt.Prelude.{ℕ, ◌≡◌, refl, arith, true, false, List, [], ◌∷◌, none, some}
use netvirt.Dnds.Types.{
  DndsMessage, DnMessage, DnChoice, PduChoice, no_pdu, dnm_pdu, no_dnop, auth_request_op,
  dn_terminate_op,
}
use netvirt.Agent.{AgentWorld, Surroundings, authed, wait_answer, send, connected, interface_up}
use netvirt.Agent.Messages.{
  netinfo_request_message, auth_response_message, netinfo_response_message, p2p_request_message,
}
use netvirt.Agent.Handlers.{agent_on_input}
use netvirt.Agent.Ports.{digits_value}
use netvirt.Agent.Handlers.Introduced.{introduction-connects}
use netvirt.Agent.{net_p2p}
use netvirt.Prelude.{◌==◌, if◌then◌else◌}
use netvirt.Agent.Handlers.Online.{comes_online}
use netvirt.Agent.Handlers.Faults.{ends_session, on_input-freed}
use netvirt.Tests.Keys.{bindings}
use netvirt.Tests.Codec.{inet}

abbrev ip : List ℕ
ip = 10 ∷ 0 ∷ 0 ∷ 7 ∷ []

abbrev hw : List ℕ
hw = 2 ∷ 0 ∷ 0 ∷ 0 ∷ 0 ∷ 7 ∷ []

abbrev name : List ℕ
name = 110 ∷ 118 ∷ 97 ∷ []

abbrev env : Surroundings
env = record {
  inet = inet;
  local_ip = ip;
  hwaddr = hw;
  prov_code = none;
  common_name = λ passport. name;
  encodes = λ m. true;
  unsecure = λ netc. false;
  krypt_secure = λ netc. netc == 9;
  flushes = λ netc m. netc == 9;
  writable = λ f. true;
  first_word = λ text. some text;
  new_passport = λ cert pkey tcert. 77;
}

abbrev agent : AgentWorld bindings.Table
agent = record {
  sessions = λ p. record { passport = 3; netc = 9; mac_dst = none; state = wait_answer };
  ext_ptr = λ n. 5;
  is_p2p = λ n. false;
  netc_freed = λ n. false;
  session_freed = λ p. false;
  ftable = bindings.jsw_hnew 16;
  files = λ f. some ip;
  ip_address = [];
  out = [];
}

introduction-connects_example :
    (m : DndsMessage) × (ip' : List ℕ) × (digits : List ℕ) × (w' : AgentWorld bindings.Table)
    × (p2p_request_message inet hw ip 50000 1 ≡ some m)
    × (inet.inet_pton ip' ≡ some ip)
    × (agent_on_input bindings env agent 9 ((m, 20) ∷ []) ≡ some w')
    × (digits_value 0 digits ≡ some 50000)
    × (w'.out ≡ net_p2p ip' digits 1 3 20 ∷ [])
    × ((w'.sessions 20).passport ≡ 3)
    × ((w'.sessions 20).mac_dst ≡ some hw)
    × ((a : ℕ) → w'.sessions a ≡ (if a == 20 then w'.sessions 20 else agent.sessions a))
introduction-connects_example =
    introduction-connects bindings env agent 9 20 hw ip ip 50000 1 refl refl (omega arith) refl refl

comes_online_example :
    (yes : DndsMessage) × (info : DndsMessage) × (mine : DndsMessage) × (w' : AgentWorld
      bindings.Table)
    × (auth_response_message 1 ≡ some yes)
    × (netinfo_response_message ≡ some info)
    × (netinfo_request_message inet ip hw ≡ some mine)
    × (agent_on_input bindings env agent 9 ((yes, 20) ∷ (info, 21) ∷ []) ≡ some w')
    × (w'.out ≡ connected ip ∷ send 9 mine ∷ interface_up ip ∷ [])
    × (w'.ip_address ≡ ip)
    × ((w'.sessions 5).state ≡ authed)
comes_online_example =
    comes_online bindings env agent 9 ip ip ip 20 21 refl refl refl refl refl (omega arith) refl

-- the registration with that name
abbrev my_name : DndsMessage
my_name = record {
  version = 1;
  channel = 0;
  present = dnm_pdu;
  choice = PduChoice.dnm (record {
    seq_number = 1;
    ack_number = 0;
    present = auth_request_op;
    choice = DnChoice.auth_request (record { buf = some name; size = 3 });
  });
}

abbrev goodbye : DnMessage
goodbye = record { seq_number = 0; ack_number = 0; present = no_dnop; choice = DnChoice.blank }

abbrev any : DndsMessage
any = record { version = 1; channel = 0; present = no_pdu; choice = PduChoice.blank }

terminate-ends : ends_session dn_terminate_op ≡ true
unfolding ends_session
terminate-ends = refl

on_input-freed_example :
    agent_on_input bindings env agent 9 (
      (
        record any {
          present = dnm_pdu;
          choice = PduChoice.dnm (record goodbye { present = dn_terminate_op });
        },
        20,
      )
      ∷ [])
    ≡ none
on_input-freed_example =
    on_input-freed bindings env agent 9 20 any goodbye dn_terminate_op [] terminate-ends refl refl
      refl
