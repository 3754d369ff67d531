-- ===== src/Switch/Input/Requests.antt =====
-- The three requests of an agent, from its call to the handler of the switch.
use netvirt.Prelude.{
  ℕ, Bool, ◌==◌, ◌≡◌, ℤ, refl, inl, inr, Bool-cases, false, List, [], ◌∷◌, length, some,
  if◌then◌else◌,
}
use netvirt.Links.{null}
use netvirt.Tables.{HashTable}
use netvirt.Dnds.Types.{
  DndsMessage, Str, DnChoice, dnm_pdu, auth_request_op, prov_request_op, netinfo_request_op,
  PduChoice, DnopPr, no_str,
}
use netvirt.Dnds.Access.{
  AddressText, given, out_given, out_used, written, reach, at_message, if_tag, at_dnm, at_any_pdu,
  put_dn, at_dnop, set_dn, get_dn, set_prov, get_prov, copied, copy_out, present_or, address_out,
}
use netvirt.Dnds.Access.Laws.{address_in-inet_pton, ntop-inet_ntop}
use netvirt.Dnds.Fields.Macs.{bytes_of_six}
use netvirt.Dnds.Message.{
  dnds_message_new, dnds_message_set_channel, dnds_message_set_pdu, dnds_message_get_pdu,
  dn_message_set_seq_number, dn_message_set_ack_number, dn_message_set_operation,
  dn_message_get_operation,
}
use netvirt.Dnds.Dn.{
  auth_request_set_cert_name, auth_request_get_cert_name, netinfo_request_set_ip_local,
  netinfo_request_set_mac_addr, netinfo_request_get_ip_local, netinfo_request_get_mac_addr,
  prov_request_set_prov_code, prov_request_get_prov_code,
}
use netvirt.Agent.Messages.{
  numbered_message, netinfo_request_message, prov_request_message, auth_request_message,
  read_prov_code, read_cert_name, read_netinfo,
}
use netvirt.Agent.Messages.Exchange.{printed}
use netvirt.Switch.{World}
use netvirt.Switch.Handlers.{
  Outcome, done, wild, endless, is_not_authed, auth_request, prov_request, handle_netinfo_request,
}
use netvirt.Switch.Input.{
  is_purge, and_then, dispatch_operation, auth_request_of, input_message, input_queue, on_input,
}

abbrev request : (seq : ℕ) → DnopPr → DnChoice → DndsMessage
request seq operation choice = record {
  version = 1;
  channel = 0;
  present = dnm_pdu;
  choice =
      PduChoice.dnm
        (record { seq_number = seq; ack_number = 0; present = operation; choice = choice });
}

abbrev str : List ℕ → ℕ → Str
str bytes size = record { buf = some bytes; size = size }

abbrev registration : List ℕ → DndsMessage
registration cn = request 1 auth_request_op (DnChoice.auth_request (str cn (length cn)))

abbrev provisioning : List ℕ → DndsMessage
provisioning code =
    request 1 prov_request_op (DnChoice.prov_request (some (str code (length code))))

abbrev interface : (b hwaddr : List ℕ) → DndsMessage
interface b hwaddr =
    request 0 netinfo_request_op
      (DnChoice.netinfo_request (record { ip_local = str b 4; mac_addr = str hwaddr 6 }))

made :
    (inet : AddressText) (cn code ip b hwaddr : List ℕ)
    → inet.inet_pton ip ≡ some b
    → length hwaddr ≡ 6
    → (auth_request_message cn ≡ some (registration cn))
      × (prov_request_message code ≡ some (provisioning code))
      × (netinfo_request_message inet ip hwaddr ≡ some (interface b hwaddr))
unfolding numbered_message netinfo_request_message prov_request_message auth_request_message
    auth_request_set_cert_name netinfo_request_set_ip_local netinfo_request_set_mac_addr
    prov_request_set_prov_code dnds_message_new dnds_message_set_channel dnds_message_set_pdu
    dn_message_set_seq_number dn_message_set_ack_number dn_message_set_operation given written reach
    at_message if_tag at_dnm at_any_pdu put_dn at_dnop set_dn set_prov copied
made inet cn code ip b hwaddr is_b six =
    (refl, refl, rw (address_in-inet_pton inet ip b no_str is_b, bytes_of_six hwaddr six) refl)

module _ (tables : HashTable) (inet : AddressText) (w : World tables.Table) (session : ℕ) where
  cert_name-read :
      (cn : List ℕ)
      → auth_request_of tables inet w session (registration cn) ≡ auth_request tables w session cn
  unfolding auth_request_of read_cert_name auth_request_get_cert_name out_given at_message at_dnm
      at_dnop if_tag reach get_dn auth_request
  cert_name-read cn = elim (Bool-cases (is_not_authed (w.sessions session).state)) [
    | inl asking ↦ rw asking refl
    | inr other ↦ rw other refl
  ]

  module _ (fuel now random : ℕ) where
    registration-input :
        (cn : List ℕ)
        → input_message tables inet fuel now random w session (registration cn)
          ≡ and_then (auth_request tables w session cn) (λ r. Outcome.done (r.1, false))
    unfolding input_message dispatch_operation dnds_message_get_pdu dn_message_get_operation
        out_used at_message at_dnm if_tag reach
    registration-input cn = rw (cert_name-read cn) refl

    provisioning-input :
        (code : List ℕ)
        → input_message tables inet fuel now random w session (provisioning code)
          ≡ done (prov_request tables w session code, false)
    unfolding input_message dispatch_operation dnds_message_get_pdu dn_message_get_operation
        out_used out_given at_message at_dnm at_any_pdu at_dnop if_tag reach read_prov_code
        prov_request_get_prov_code get_prov present_or
    provisioning-input code = refl

    interface-input :
        (b hwaddr ip' : List ℕ)
        → inet.inet_ntop b ≡ some ip'
        → length hwaddr ≡ 6
        → input_message tables inet fuel now random w session (interface b hwaddr)
          ≡ done (handle_netinfo_request tables w session ip' hwaddr, false)
    unfolding input_message dispatch_operation dnds_message_get_pdu dn_message_get_operation
        out_used out_given at_message at_dnm at_dnop if_tag reach read_netinfo
        netinfo_request_get_ip_local netinfo_request_get_mac_addr get_dn copy_out address_out
    interface-input b hwaddr ip' to_text six =
        rw (ntop-inet_ntop inet ip' b to_text, bytes_of_six hwaddr six) refl

  after_one :
      (fuel : ℕ) (o : Outcome (ℤ × World tables.Table))
      → and_then {A = World tables.Table × Bool}
          (and_then o (λ r. Outcome.done (r.1, false)))
          (λ p. if p.1 then Outcome.wild else input_queue tables inet fuel p.0 session [])
        ≡ and_then o (λ r. Outcome.done r.1)
  unfolding input_queue
  after_one fuel (done r) = refl
  after_one fuel wild = refl
  after_one fuel endless = refl

-- The three requests of an agent, from the calls that make them to the handlers of the switch. If
-- `inet_pton` can read the agent's address, its tap device has a MAC address of six bytes, and the
-- connection has a session, which is not to be purged, then the three messages can be made, and as the
-- only message in the queue of `on_input` the registration is answered as `authRequest` answers that
-- common name, the provisioning request as `provRequest` does that code, and the message about the
-- interface as `handle_netinfo_request` does that MAC address and a text for the same IP address.
pub requests_handled :
    (tables : HashTable) (inet : AddressText) (w : World tables.Table) (netc : ℕ)
    (fuel now random : ℕ) (cn code ip b hwaddr : List ℕ)
    → inet.inet_pton ip ≡ some b
    → length hwaddr ≡ 6
    → ((w.netcs netc).ext_ptr == null) ≡ false
    → is_purge (w.sessions (w.netcs netc).ext_ptr).state ≡ false
    → let session = (w.netcs netc).ext_ptr in
      (reg : DndsMessage) × (prov : DndsMessage) × (info : DndsMessage) × (ip' : List ℕ)
      × (auth_request_message cn ≡ some reg)
      × (prov_request_message code ≡ some prov)
      × (netinfo_request_message inet ip hwaddr ≡ some info)
      × (inet.inet_pton ip' ≡ some b)
      × (on_input tables inet fuel w netc ((reg, now, random) ∷ [])
          ≡ and_then (auth_request tables w session cn) (λ r. Outcome.done r.1))
      × (on_input tables inet fuel w netc ((prov, now, random) ∷ [])
          ≡ done (prov_request tables w session code))
      × (on_input tables inet fuel w netc ((info, now, random) ∷ [])
          ≡ done (handle_netinfo_request tables w session ip' hwaddr))
unfolding on_input input_queue
requests_handled tables inet w netc fuel now random cn code ip b hwaddr is_b six there kept =
    let session = (w.netcs netc).ext_ptr in
    let (ip', to_text, to_b) = printed inet ip b is_b in
    let (reg_made, prov_made, info_made) = made inet cn code ip b hwaddr is_b six in
    (
      registration cn,
      provisioning code,
      interface b hwaddr,
      ip',
      reg_made,
      prov_made,
      info_made,
      to_b,
      rw (there, kept, registration-input tables inet w session fuel now random cn)
          (after_one tables inet w session fuel (auth_request tables w session cn)),
      rw (there, kept, provisioning-input tables inet w session fuel now random code) refl,
      rw
          (
            there,
            kept,
            interface-input tables inet w session fuel now random b hwaddr ip' to_text six,
          )
          refl,
    )
