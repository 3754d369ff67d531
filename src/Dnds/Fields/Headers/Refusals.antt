-- ===== src/Dnds/Fields/Headers/Refusals.antt =====
-- What the accessors of `Fields.Headers` do with a message that does not have the PDU, or with the
-- object NULL.
use netvirt.Prelude.{ℕ, ◌%◌, ◌==◌, ◌≡◌, ◌⊎◌, inl, inr, sym, true, Bool-cases, Option, some}
use netvirt.Prelude.Bytes.{u32_mod}
use netvirt.Links.{null}
use netvirt.Dnds.Types.{DndsMessage, Code, invalid_param}
use netvirt.Dnds.Members.{p2p_request_member, search_request_member}
use netvirt.Dnds.Access.{reply, at_message}
use netvirt.Dnds.Access.Refusals.{
  Succeeds, Refuses, reply_code, reply_value, at_dnm-Refuses, at_dsm-Refuses, pure-Unchecked,
  set_dn-Refuses, set_ds-Refuses,
}
use netvirt.Dnds.Dn.{p2p_request_set_port}
use netvirt.Dnds.Search.{search_request_set_object_name, search_request_set_object}
use netvirt.Dnds.Fields.Headers.{
  HeaderField, channel, dn_seq_number, dn_ack_number, ds_seq_number, ds_ack_number, ds_action,
  p2p_request_port, search_request_object_name, search_request_object, write_header,
}
use netvirt.Dnds.Message.{
  dnds_message_set_channel, dn_message_set_seq_number, dn_message_set_ack_number,
  ds_message_set_seq_number, ds_message_set_ack_number, ds_message_set_action,
}

-- The object of a search is NULL: the message is as it was, and the code is that of a wrong argument.
unfoldable pub NoObject : HeaderField → ℕ → Code → DndsMessage → Option DndsMessage → Type 0
NoObject search_request_object v code m m' =
    ((v == null) ≡ true) × (m' ≡ some m) × (code ≡ invalid_param)
NoObject f v code m m' = ⊥

module _ (m : DndsMessage) (m' : Option DndsMessage) (code : Code) where
  pub write_header-Refuses :
      (f : HeaderField) (v : ℕ)
      → write_header f m v ≡ reply code m'
      → (Succeeds code ⊎ Refuses m code m') ⊎ NoObject f v code m m'
  unfolding write_header NoObject Succeeds at_message dnds_message_set_channel
      dn_message_set_seq_number dn_message_set_ack_number ds_message_set_seq_number
      ds_message_set_ack_number ds_message_set_action p2p_request_set_port
      search_request_set_object_name search_request_set_object
  write_header-Refuses channel v e = inl (inl (sym (reply_code e)))
  write_header-Refuses dn_seq_number v e = inl (at_dnm-Refuses m m' code _ e)
  write_header-Refuses dn_ack_number v e = inl (at_dnm-Refuses m m' code _ e)
  write_header-Refuses ds_seq_number v e = inl (at_dsm-Refuses m m' code _ e)
  write_header-Refuses ds_ack_number v e = inl (at_dsm-Refuses m m' code _ e)
  write_header-Refuses ds_action v e = inl (at_dsm-Refuses m m' code _ e)
  write_header-Refuses p2p_request_port v e = inl (
      set_dn-Refuses p2p_request_member m m' _ _ code
        (pure-Unchecked (λ r a. record r { port = a }) (v % u32_mod)) e)
  write_header-Refuses search_request_object_name v e = inl (
      set_ds-Refuses search_request_member m m' _ _ code
        (pure-Unchecked (λ r a. record r { objectname = a }) (some v)) e)
  write_header-Refuses search_request_object v e = elim (Bool-cases (v == null)) [
    | inl nothing ↦
        let got = rw nothing at e in inr (nothing, sym (reply_value got), sym (reply_code got))
    | inr there ↦ inl (
        set_ds-Refuses search_request_member m m' _ _ code
          (pure-Unchecked (λ r a. record r { object = a }) v) (rw there at e))
  ]
