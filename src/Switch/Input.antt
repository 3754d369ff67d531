-- ===== src/Switch/Input.antt =====
-- `dispatch_operation` and `on_input` of nvswitch/src/switch.c: the messages of a connection, as they
-- come out of its queue. What the handlers read of a message is that of `Agent.Messages`; a string
-- that was not read is empty.
pub mod Requests
use netvirt.Prelude.{
  ℕ, ◌==◌, Bool, true, false, List, [], ◌∷◌, Option, none, some, ℤ, if◌then◌else◌,
}
use netvirt.Links.{null}
use netvirt.Tables.{HashTable}
use netvirt.Dnds.Types.{
  DndsMessage, Str, PduPr, DnopPr, no_pdu, dnm_pdu, dsm_pdu, ethernet_pdu, no_dnop, auth_request_op,
  auth_response_op, netinfo_request_op, netinfo_response_op, prov_request_op, prov_response_op,
  p2p_request_op, p2p_response_op, dn_terminate_op,
}
use netvirt.Dnds.Access.{AddressText}
use netvirt.Dnds.Calls.{get, ◌>>=◌}
use netvirt.Dnds.Message.{dnds_message_get_pdu, dnds_message_get_ethernet, dn_message_get_operation}
use netvirt.Session.{Session, SessionState, authed, not_authed, wait_stepup, purge}
use netvirt.Agent.Messages.{read_prov_code, read_cert_name, read_netinfo}
use netvirt.Switch.{World}
use netvirt.Switch.Forward.{is_authed, forward_ethernet}
use netvirt.Switch.Handlers.{
  Outcome, is_not_authed, done, wild, endless, auth_request, prov_request, handle_netinfo_request,
  net_disconnect, session_terminate,
}

abbrev pub is_purge : SessionState → Bool
is_purge authed = false
is_purge not_authed = false
is_purge wait_stepup = false
is_purge purge = true

-- A variable of a string, which is NULL if nothing was read into it.
abbrev pub string_of : Option Str → Option (List ℕ)
string_of none = none
string_of (some s) = s.buf

abbrev pub or_empty : Option (List ℕ) → List ℕ
or_empty none = []
or_empty (some s) = s

-- What comes after a step that ends well.
abbrev pub and_then {ℓ κ} : {A : Type ℓ} {B : Type κ} → Outcome A → (A → Outcome B) → Outcome B
and_then (done a) f = f a
and_then wild f = wild
and_then endless f = endless

-- A read of a message that may be wild.
abbrev pub read_then {ℓ κ} : {A : Type ℓ} {B : Type κ} → Option A → (A → Outcome B) → Outcome B
read_then none f = wild
read_then (some a) f = f a

abbrev pub walk_then {ℓ κ} : {A : Type ℓ} {B : Type κ} → Option A → (A → Outcome B) → Outcome B
walk_then none f = endless
walk_then (some a) f = f a

module _ (tables : HashTable) (inet : AddressText) where
  open tables use {Table}

  -- `authRequest` reads the name once it knows that the session has not been authenticated;
  -- `cn2node_info` refuses NULL as it refuses an empty name.
  unfoldable pub auth_request_of :
      World Table → (session : ℕ) → DndsMessage → Outcome (ℤ × World Table)
  auth_request_of w session msg =
      if is_not_authed (w.sessions session).state
      then read_then (read_cert_name msg)
          (λ name. auth_request tables w session (or_empty (string_of name)))
      else auth_request tables w session []

  -- The state after an operation, and whether the session has been terminated.
  unfoldable pub dispatch_operation :
      World Table → (session : ℕ) → DndsMessage → Outcome (World Table × Bool)
  dispatch_operation w session msg =
      read_then (get none (dn_message_get_operation (some msg) true)) (λ read.
        read_then read (λ operation. elim operation [
          | prov_request_op ↦ read_then (read_prov_code msg) (λ provcode.
              Outcome.done (prov_request tables w session (or_empty (string_of provcode)), false))
          | auth_request_op ↦
              and_then (auth_request_of w session msg) (λ r. Outcome.done (r.1, false))
          | netinfo_request_op ↦
              let s = w.sessions session in
              read_then (read_netinfo inet msg s.ip_local s.tun_mac_addr)
                (λ p. Outcome.done (handle_netinfo_request tables w session p.0 p.1, false))
          | _ ↦ and_then (session_terminate tables w session) (λ w'. Outcome.done (w', true))
        ]))

  -- One message, with what `time` and `rand` return for it. Another PDU is skipped.
  unfoldable pub input_message :
      (fuel now random : ℕ)
      → World Table
      → (session : ℕ) → DndsMessage
      → Outcome (World Table × Bool)
  input_message fuel now random w session msg =
      read_then (get none (dnds_message_get_pdu (some msg) true)) (λ read. read_then read (λ pdu.
        elim pdu [
          | dnm_pdu ↦ dispatch_operation w session msg
          | ethernet_pdu ↦
              if is_authed (w.sessions session).state
              then read_then (get none (dnds_message_get_ethernet (some msg) true)) (λ frame.
                read_then (string_of frame) (λ bytes.
                  walk_then (forward_ethernet tables fuel now random w session bytes)
                    (λ w'. Outcome.done (w', false))))
              else Outcome.done (w, false)
          | _ ↦ Outcome.done (w, false)
        ]))

  -- The connection of a session that has been terminated has been freed with its queue, from which
  -- `on_input` goes on to take the message.
  unfoldable pub input_queue :
      (fuel : ℕ) → World Table → (session : ℕ) → List (DndsMessage × ℕ × ℕ) → Outcome (World Table)
  input_queue fuel w session [] = done w
  input_queue fuel w session ((msg, now, random) ∷ rest) =
      and_then (input_message fuel now random w session msg) (λ p.
        let rest_of = input_queue fuel p.0 session rest in if p.1 then Outcome.wild else rest_of)

  -- A session that is NULL is used all the same.
  unfoldable pub on_input :
      (fuel : ℕ) → World Table → (netc : ℕ) → List (DndsMessage × ℕ × ℕ) → Outcome (World Table)
  on_input fuel w netc queue_msg =
      let session = (w.netcs netc).ext_ptr in
      if session == null
      then Outcome.wild
      else if is_purge (w.sessions session).state
      then net_disconnect tables w netc
      else input_queue fuel w session queue_msg
