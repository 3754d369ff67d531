-- ===== src/Dnds/Message.antt =====
-- The functions of libnvcore/src/dnds.c on a message itself: `DNDSMessage`, `DNMessage`,
-- `DSMessage`, and the type of a `DNDSObject`.
use netvirt.Prelude.{ℕ, ◌%◌, length, Bool, List, Option, none, some}
use netvirt.Prelude.Bytes.{u32_mod}
use netvirt.Dnds.Types.{
  Str, ObjectChoice, DndsObject, PduChoice, DndsMessage, PduPr, DnopPr, DsopPr, ObjectPr, no_pdu,
  no_object, success, invalid_param,
}
use netvirt.Dnds.Unions.{as_ethernet}
use netvirt.Dnds.Access.{
  Reply, reply, out_given, out_used, reach, at_message, at_dnm, at_dsm, put_dn, put_ds, present_or,
}

-- That `calloc` succeeds is taken for granted.
unfoldable pub dnds_message_new : DndsMessage
dnds_message_new = record { version = 1; channel = 0; present = no_pdu; choice = PduChoice.blank }

unfoldable pub dnds_message_set_channel : Option DndsMessage → ℕ → Reply (Option DndsMessage)
dnds_message_set_channel msg v =
    at_message msg msg (λ m. reply success (some (record m { channel = v % 256 })))

unfoldable pub dnds_message_get_channel : Option DndsMessage → Bool → Reply (Option ℕ)
dnds_message_get_channel msg out = at_message none msg (λ m. out_used out (m.channel % 256))

unfoldable pub dnds_message_set_pdu : Option DndsMessage → PduPr → Reply (Option DndsMessage)
dnds_message_set_pdu msg pdu =
    at_message msg msg (λ m. reply success (some (record m { present = pdu })))

unfoldable pub dnds_message_get_pdu : Option DndsMessage → Bool → Reply (Option PduPr)
dnds_message_get_pdu msg out = at_message none msg (λ m. out_used out m.present)

-- Neither of these two looks at the message before it uses it.
unfoldable pub dnds_message_set_ethernet :
    Option DndsMessage → Option (List ℕ) → ℕ → Reply (Option DndsMessage)
dnds_message_set_ethernet msg frame length = reach msg (λ m.
    reply success
      (some (record m { choice = PduChoice.ethernet (record { buf = frame; size = length }) })))

unfoldable pub dnds_message_get_ethernet : Option DndsMessage → Bool → Reply (Option Str)
dnds_message_get_ethernet msg out = reach msg (λ m. reach (as_ethernet m.choice) (out_used out))

unfoldable pub dn_message_set_seq_number : Option DndsMessage → ℕ → Reply (Option DndsMessage)
dn_message_set_seq_number msg v =
    at_dnm msg msg
      (λ m d. reply success (some (put_dn m d (record d { seq_number = v % u32_mod }))))

unfoldable pub dn_message_get_seq_number : Option DndsMessage → Bool → Reply (Option ℕ)
dn_message_get_seq_number msg out = at_dnm none msg (λ m d. out_used out (d.seq_number % u32_mod))

unfoldable pub dn_message_set_ack_number : Option DndsMessage → ℕ → Reply (Option DndsMessage)
dn_message_set_ack_number msg v =
    at_dnm msg msg
      (λ m d. reply success (some (put_dn m d (record d { ack_number = v % u32_mod }))))

unfoldable pub dn_message_get_ack_number : Option DndsMessage → Bool → Reply (Option ℕ)
dn_message_get_ack_number msg out = at_dnm none msg (λ m d. out_used out (d.ack_number % u32_mod))

unfoldable pub dn_message_set_operation : Option DndsMessage → DnopPr → Reply (Option DndsMessage)
dn_message_set_operation msg operation =
    at_dnm msg msg (λ m d. reply success (some (put_dn m d (record d { present = operation }))))

unfoldable pub dn_message_get_operation : Option DndsMessage → Bool → Reply (Option DnopPr)
dn_message_get_operation msg out = at_dnm none msg (λ m d. out_used out d.present)

unfoldable pub ds_message_set_seq_number : Option DndsMessage → ℕ → Reply (Option DndsMessage)
ds_message_set_seq_number msg v =
    at_dsm msg msg
      (λ m d. reply success (some (put_ds m d (record d { seq_number = v % u32_mod }))))

unfoldable pub ds_message_get_seq_number : Option DndsMessage → Bool → Reply (Option ℕ)
ds_message_get_seq_number msg out = at_dsm none msg (λ m d. out_used out (d.seq_number % u32_mod))

unfoldable pub ds_message_set_ack_number : Option DndsMessage → ℕ → Reply (Option DndsMessage)
ds_message_set_ack_number msg v =
    at_dsm msg msg
      (λ m d. reply success (some (put_ds m d (record d { ack_number = v % u32_mod }))))

unfoldable pub ds_message_get_ack_number : Option DndsMessage → Bool → Reply (Option ℕ)
ds_message_get_ack_number msg out = at_dsm none msg (λ m d. out_used out (d.ack_number % u32_mod))

unfoldable pub ds_message_set_action : Option DndsMessage → ℕ → Reply (Option DndsMessage)
ds_message_set_action msg v =
    at_dsm msg msg (λ m d. reply success (some (put_ds m d (record d { action = v }))))

unfoldable pub ds_message_get_action : Option DndsMessage → Bool → Reply (Option ℕ)
ds_message_get_action msg out = at_dsm none msg (λ m d. out_used out d.action)

unfoldable pub ds_message_set_operation : Option DndsMessage → DsopPr → Reply (Option DndsMessage)
ds_message_set_operation msg operation =
    at_dsm msg msg (λ m d. reply success (some (put_ds m d (record d { present = operation }))))

unfoldable pub ds_message_get_operation : Option DndsMessage → Bool → Reply (Option DsopPr)
ds_message_get_operation msg out = at_dsm none msg (λ m d. out_used out d.present)

unfoldable pub ds_message_get_apikey : Option DndsMessage → Bool → Reply (Option Str)
ds_message_get_apikey msg out =
    out_given out (at_dsm none msg (λ m d. present_or d.apikey (λ s. reply success (some s))))

unfoldable pub dnds_object_new : Bool → Reply (Option DndsObject)
dnds_object_new out =
    out_given out
      (reply success (some (record { present = no_object; choice = ObjectChoice.blank })))

unfoldable pub dnds_object_set_object_type :
    Option DndsObject → ObjectPr → Reply (Option DndsObject)
dnds_object_set_object_type none type = reply invalid_param none
dnds_object_set_object_type (some o) type = reply success (some (record o { present = type }))

unfoldable pub dnds_object_get_object_type : Option DndsObject → Bool → Reply (Option ObjectPr)
dnds_object_get_object_type none out = reply invalid_param none
dnds_object_get_object_type (some o) out = out_given out (reply success (some o.present))
