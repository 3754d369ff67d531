-- ===== src/Agent/Handlers/Storage.antt =====
-- The message of a provisioning, and the files that the agent writes from it.
use netvirt.Prelude.{ℕ, ◌≡◌, refl, ◌∙◌, true, if◌then◌else◌, List, length, Option, some}
use netvirt.Tables.{HashTable}
use netvirt.Dnds.Types.{
  DndsMessage, Str, DnChoice, dnm_pdu, prov_response_op, auth_request_op, PduChoice, no_str,
}
use netvirt.Dnds.Access.{
  AddressText, given, out_given, written, reach, at_message, if_tag, at_dnm, at_any_pdu, put_dn,
  at_dnop, set_dn, set_prov, get_prov, present_or, address_out,
}
use netvirt.Dnds.Access.Laws.{address_in-inet_pton, ntop-inet_ntop}
use netvirt.Dnds.Message.{
  dnds_message_new, dnds_message_set_channel, dnds_message_set_pdu, dn_message_set_seq_number,
  dn_message_set_ack_number, dn_message_set_operation,
}
use netvirt.Dnds.Dn.{
  auth_request_set_cert_name, prov_response_set_certificate, prov_response_set_certificate_key,
  prov_response_set_trusted_cert, prov_response_set_ip_address, prov_response_get_certificate,
  prov_response_get_certificate_key, prov_response_get_trusted_cert, prov_response_get_ip_address,
}
use netvirt.Agent.{AgentWorld, Surroundings, File, certificate, privatekey, trusted_cert, ip_conf}
use netvirt.Agent.Messages.{numbered_message, auth_request_message, prov_response_message}
use netvirt.Agent.Handlers.{same_file, write_file, load_and_register, op_prov_response}

abbrev pub str : List ℕ → ℕ → Str
str bytes size = record { buf = some bytes; size = size }

abbrev pub provision : (cert pkey tcert b : List ℕ) → DndsMessage
provision cert pkey tcert b = record {
  version = 1;
  channel = 0;
  present = dnm_pdu;
  choice = PduChoice.dnm (record {
    seq_number = 0;
    ack_number = 0;
    present = prov_response_op;
    choice = DnChoice.prov_response (record {
      certificate = some (str cert (length cert));
      certificate_key = some (str pkey (length pkey));
      trusted_cert = some (str tcert (length tcert));
      ip_address = some (str b 4);
    });
  });
}

pub prov_response-provision :
    (inet : AddressText) (cert pkey tcert ipaddr b : List ℕ)
    → inet.inet_pton ipaddr ≡ some b
    → prov_response_message inet cert pkey tcert ipaddr ≡ some (provision cert pkey tcert b)
unfolding prov_response_message dnds_message_new dnds_message_set_channel dnds_message_set_pdu
    dn_message_set_operation prov_response_set_certificate prov_response_set_certificate_key
    prov_response_set_trusted_cert prov_response_set_ip_address given set_prov at_message at_dnm
    at_any_pdu at_dnop if_tag reach written put_dn
prov_response-provision inet cert pkey tcert ipaddr b is_b =
    rw (address_in-inet_pton inet ipaddr b no_str is_b) refl

abbrev pub registration : List ℕ → DndsMessage
registration cn = record {
  version = 1;
  channel = 0;
  present = dnm_pdu;
  choice = PduChoice.dnm (record {
    seq_number = 1;
    ack_number = 0;
    present = auth_request_op;
    choice = DnChoice.auth_request (str cn (length cn));
  });
}

pub auth_request-registration : (cn : List ℕ) → auth_request_message cn ≡ some (registration cn)
unfolding auth_request_message numbered_message dnds_message_new dnds_message_set_channel
    dnds_message_set_pdu dn_message_set_seq_number dn_message_set_ack_number
    dn_message_set_operation auth_request_set_cert_name given set_dn at_message at_dnm at_dnop
    if_tag reach written put_dn
auth_request-registration cn = refl

module _ (tables : HashTable) (env : Surroundings) where
  open tables use {Table}

  write_file-writable :
      (w : AgentWorld Table) (f : File) (bytes : List ℕ)
      (k : AgentWorld Table → Option (AgentWorld Table))
      → env.writable f ≡ true
      → write_file tables env w f (some bytes) k
        ≡ k (record w { files = λ g. if same_file g f then some bytes else w.files g })
  unfolding write_file
  write_file-writable w f bytes k can = rw (can) refl

  abbrev pub store : AgentWorld Table → File → List ℕ → AgentWorld Table
  store w f bytes = record w { files = λ g. if same_file g f then some bytes else w.files g }

  abbrev pub stored : AgentWorld Table → (cert pkey tcert ip : List ℕ) → AgentWorld Table
  stored w cert pkey tcert ip =
      store
        (record (store (store (store w certificate cert) privatekey pkey) trusted_cert tcert) {
          ip_address = ip;
        })
        ip_conf ip

  module _ (writable : (f : File) → env.writable f ≡ true) where
    pub op_prov_response-stored :
        (w : AgentWorld Table) (session : ℕ) (cert pkey tcert b ip' : List ℕ)
        → env.inet.inet_ntop b ≡ some ip'
        → op_prov_response tables env w session (provision cert pkey tcert b)
          ≡ load_and_register tables env (stored w cert pkey tcert ip') session
    unfolding op_prov_response prov_response_get_certificate prov_response_get_certificate_key
        prov_response_get_trusted_cert prov_response_get_ip_address out_given at_message at_any_pdu
        at_dnop if_tag reach get_prov present_or address_out
    op_prov_response-stored w session cert pkey tcert b ip' to_text =
        write_file-writable w certificate cert _ (writable certificate)
        ∙ write_file-writable _ privatekey pkey _ (writable privatekey)
        ∙ write_file-writable _ trusted_cert tcert _ (writable trusted_cert)
        ∙ rw (ntop-inet_ntop env.inet ip' b to_text)
            (write_file-writable _ ip_conf ip' _ (writable ip_conf))
