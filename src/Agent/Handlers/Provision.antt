-- ===== src/Agent/Handlers/Provision.antt =====
-- How an agent is provisioned.
use netvirt.Prelude.{ℕ}
use netvirt.Tables.{HashTable}
use netvirt.Dnds.Types.{DndsMessage}
use netvirt.Agent.{
  AgentWorld, Surroundings, wait_answer, send, add_passport, set_rsa, emit_event, put_agent_session,
}
use netvirt.Agent.Connection.{set_state}
use netvirt.Agent.Handlers.{pki_passport_load_from_file}

module _ (tables : HashTable) (env : Surroundings) where
  open tables use {Table}

  abbrev passported : AgentWorld Table → ℕ → AgentWorld Table
  passported w session =
      let passport = pki_passport_load_from_file env w.files in
      let s = record (w.sessions session) { passport = passport } in
      emit_event (put_agent_session w session s) (add_passport s.netc passport)

  abbrev registered : AgentWorld Table → (session netc : ℕ) → DndsMessage → AgentWorld Table
  registered w session netc reg =
      emit_event (set_state tables env (emit_event w (send netc reg)) session wait_answer)
        (set_rsa (w.sessions session).netc)
