-- ===== src/Agent/Handlers/Faults.antt =====
-- Where the agent uses a connection that has been freed.
use netvirt.Prelude.{
  ℕ, Option, ◌≡◌, ◌==◌, ◌⊎◌, inl, inr, refl, arith, Bool, true, false, List, ◌∷◌, none, some,
  Bool-cases, if◌then◌else◌,
}
use netvirt.Links.{null, update}
use netvirt.Tables.{HashTable}
use netvirt.Dnds.Types.{
  DndsMessage, DnMessage, DnopPr, PduChoice, dnm_pdu, no_dnop, auth_request_op, auth_response_op,
  netinfo_request_op, netinfo_response_op, prov_request_op, prov_response_op, p2p_request_op,
  p2p_response_op, dn_terminate_op,
}
use netvirt.Dnds.Access.{out_used, reach, at_message, if_tag, at_dnm}
use netvirt.Dnds.Message.{dnds_message_get_pdu, dn_message_get_operation}
use netvirt.Agent.{AgentWorld, Surroundings, down, put_agent_session}
use netvirt.Agent.Connection.{set_state, agent_on_disconnect, agent_net_disconnect, terminate}
use netvirt.Agent.Handlers.{agent_dispatch_op, handle_message, handle_queue, agent_on_input}

-- The operations that the agent does not know as its own.
unfoldable pub ends_session : DnopPr → Bool
ends_session no_dnop = true
ends_session auth_request_op = true
ends_session auth_response_op = false
ends_session netinfo_request_op = true
ends_session netinfo_response_op = false
ends_session prov_request_op = true
ends_session prov_response_op = false
ends_session p2p_request_op = false
ends_session p2p_response_op = true
ends_session dn_terminate_op = true

module _ (tables : HashTable) (env : Surroundings) where
  open tables use {Table}

  dispatch-terminate :
      (w : AgentWorld Table) (session fresh : ℕ) (m : DndsMessage) (d : DnMessage) (op : DnopPr)
      → ends_session op ≡ true
      → agent_dispatch_op tables env w session
          (record m { present = dnm_pdu; choice = PduChoice.dnm (record d { present = op }) })
          fresh
        ≡ terminate tables env w session
  unfolding ends_session agent_dispatch_op dn_message_get_operation out_used at_message at_dnm
      if_tag reach
  dispatch-terminate w session fresh m d no_dnop ends = refl
  dispatch-terminate w session fresh m d auth_request_op ends = refl
  dispatch-terminate w session fresh m d auth_response_op ends = absurd (cc ends)
  dispatch-terminate w session fresh m d netinfo_request_op ends = refl
  dispatch-terminate w session fresh m d netinfo_response_op ends = absurd (cc ends)
  dispatch-terminate w session fresh m d prov_request_op ends = refl
  dispatch-terminate w session fresh m d prov_response_op ends = absurd (cc ends)
  dispatch-terminate w session fresh m d p2p_request_op ends = absurd (cc ends)
  dispatch-terminate w session fresh m d p2p_response_op ends = refl
  dispatch-terminate w session fresh m d dn_terminate_op ends = refl

  module _ (w : AgentWorld Table) (session netc : ℕ) (up : (netc == null) ≡ false)
      (to_switch : w.is_p2p netc ≡ false) (own : (w.sessions session).netc ≡ netc) where
    disconnect-freed :
        (w' : AgentWorld Table) × (agent_net_disconnect tables env
            (set_state tables env w session down)
            netc
          ≡ some w')
        × (w'.netc_freed netc ≡ true)
    unfolding agent_net_disconnect set_state put_agent_session update
    disconnect-freed =
        let left = agent_on_disconnect tables env (set_state tables env w session down) netc in
        (
          record left {
            ext_ptr = update left.ext_ptr netc null;
            netc_freed = update left.netc_freed netc true;
          },
          rw (up, to_switch) refl,
          ground arith,
        )

    terminate-freed :
        (terminate tables env w session ≡ none)
        ⊎ ((w' : AgentWorld Table) × (terminate tables env w session ≡ some w')
            × (w'.netc_freed netc ≡ true))
    unfolding terminate put_agent_session
    terminate-freed =
        let (w', left, freed) = disconnect-freed in
        elim (Bool-cases (w'.session_freed session)) [
          | inl gone ↦ inl (rw (own, left, gone) refl)
          | inr kept ↦ inr (
            put_agent_session w' session (record (w'.sessions session) { netc = null }),
            rw (own, left, kept) refl,
            freed,
          )
        ]

  either_none : (b : Bool) (o : Option (AgentWorld Table)) → (if b then o else o) ≡ o
  either_none true o = refl
  either_none false o = refl

  -- A message to end the session, or with an operation that is not one of the agent's, ends in a use
  -- of the connection that has just been freed: whatever else the message holds and whatever is in
  -- the queue behind it, `on_input` does not end well on the connection to the switch. (Without a
  -- session it ends in a use of NULL.)
  pub on_input-freed :
      (w : AgentWorld Table) (netc fresh : ℕ) (m : DndsMessage) (d : DnMessage) (op : DnopPr)
      (rest : List (DndsMessage × ℕ))
      → ends_session op ≡ true
      → (netc == null) ≡ false
      → w.is_p2p netc ≡ false
      → (w.sessions (w.ext_ptr netc)).netc ≡ netc
      → agent_on_input tables env w netc (
          (
            record m { present = dnm_pdu; choice = PduChoice.dnm (record d { present = op }) },
            fresh,
          )
          ∷ rest)
        ≡ none
  unfolding agent_on_input handle_queue handle_message dnds_message_get_pdu out_used at_message
  on_input-freed w netc fresh m d op rest ends up to_switch own =
      elim (terminate-freed w (w.ext_ptr netc) netc up to_switch own) [
        | inl gone ↦
            rw (dispatch-terminate w (w.ext_ptr netc) fresh m d op ends, gone) (either_none _ none)
        | inr (w', done, freed) ↦
            rw (dispatch-terminate w (w.ext_ptr netc) fresh m d op ends, done, freed)
              (either_none _ none)
      ]
