-- ===== src/Dnds/Fields/Headers.antt =====
-- The numbers of a message that do not belong to an operation, and those of an operation that are cut
-- or checked, by their accessors in libnvcore/src/dnds.c.
pub mod Refusals
use netvirt.Prelude.{ℕ, ◌%◌, ◌==◌, ◌≡◌, refl, arith, true, false, Option, some}
use netvirt.Prelude.Bytes.{u32_mod}
use netvirt.Links.{null}
use netvirt.Dnds.Types.{DndsMessage, DnMessage, DsMessage, success}
use netvirt.Dnds.Unions.{as_dnm, as_dsm, pdu_index}
use netvirt.Dnds.Members.{p2p_request_member, search_request_member}
use netvirt.Dnds.Access.{
  Reply, reply, out_given, out_used, written, reach, at_message, if_tag, at_dnm, at_dsm, at_dnop,
  put_dn, put_ds, set_dn,
}
use netvirt.Dnds.Access.Laws.{ReadyDn, ReadyDs, set_ds-get_ds}
use netvirt.Dnds.Message.{
  dnds_message_set_channel, dnds_message_get_channel, dn_message_set_seq_number,
  dn_message_get_seq_number, dn_message_set_ack_number, dn_message_get_ack_number,
  ds_message_set_seq_number, ds_message_get_seq_number, ds_message_set_ack_number,
  ds_message_get_ack_number, ds_message_set_action, ds_message_get_action,
}
use netvirt.Dnds.Dn.{p2p_request_set_port, p2p_request_get_port}
use netvirt.Dnds.Search.{
  search_request_set_object_name, search_request_get_object_name, search_request_set_object,
  search_request_get_object,
}

pub data HeaderField : Type 0 where
  channel : HeaderField
  dn_seq_number : HeaderField
  dn_ack_number : HeaderField
  ds_seq_number : HeaderField
  ds_ack_number : HeaderField
  ds_action : HeaderField
  p2p_request_port : HeaderField
  search_request_object_name : HeaderField
  search_request_object : HeaderField

unfoldable pub write_header : HeaderField → DndsMessage → ℕ → Reply (Option DndsMessage)
write_header channel m v = dnds_message_set_channel (some m) v
write_header dn_seq_number m v = dn_message_set_seq_number (some m) v
write_header dn_ack_number m v = dn_message_set_ack_number (some m) v
write_header ds_seq_number m v = ds_message_set_seq_number (some m) v
write_header ds_ack_number m v = ds_message_set_ack_number (some m) v
write_header ds_action m v = ds_message_set_action (some m) v
write_header p2p_request_port m v = p2p_request_set_port (some m) v
write_header search_request_object_name m v = search_request_set_object_name (some m) v
write_header search_request_object m v = search_request_set_object (some m) v

unfoldable pub read_header : HeaderField → DndsMessage → Reply (Option ℕ)
read_header channel m = dnds_message_get_channel (some m) true
read_header dn_seq_number m = dn_message_get_seq_number (some m) true
read_header dn_ack_number m = dn_message_get_ack_number (some m) true
read_header ds_seq_number m = ds_message_get_seq_number (some m) true
read_header ds_ack_number m = ds_message_get_ack_number (some m) true
read_header ds_action m = ds_message_get_action (some m) true
read_header p2p_request_port m = p2p_request_get_port (some m) true
read_header search_request_object_name m = search_request_get_object_name (some m) true
read_header search_request_object m = search_request_get_object (some m) true

unfoldable pub HasDnm : DndsMessage → Type 0
HasDnm m = (d : DnMessage) × ((pdu_index m.present == 1) ≡ true) × (as_dnm m.choice ≡ some d)

unfoldable pub HasDsm : DndsMessage → Type 0
HasDsm m = (d : DsMessage) × ((pdu_index m.present == 2) ≡ true) × (as_dsm m.choice ≡ some d)

unfoldable pub HeaderReady : HeaderField → DndsMessage → Type 0
HeaderReady channel m = Unit
HeaderReady dn_seq_number m = HasDnm m
HeaderReady dn_ack_number m = HasDnm m
HeaderReady ds_seq_number m = HasDsm m
HeaderReady ds_ack_number m = HasDsm m
HeaderReady ds_action m = HasDsm m
HeaderReady p2p_request_port m = ReadyDn p2p_request_member m
HeaderReady search_request_object_name m = ReadyDs search_request_member m
HeaderReady search_request_object m = ReadyDs search_request_member m

-- An object of a search is not NULL.
unfoldable pub HeaderFits : HeaderField → ℕ → Type 0
HeaderFits search_request_object v = (v == null) ≡ false
HeaderFits f v = Unit

-- What is left of a number in its field: a byte of the channel, and 32 bits of a number and a port.
unfoldable pub header_kept : HeaderField → ℕ → ℕ
header_kept channel v = v % 256
header_kept dn_seq_number v = v % u32_mod
header_kept dn_ack_number v = v % u32_mod
header_kept ds_seq_number v = v % u32_mod
header_kept ds_ack_number v = v % u32_mod
header_kept p2p_request_port v = v % u32_mod
header_kept ds_action v = v
header_kept search_request_object_name v = v
header_kept search_request_object v = v

twice_u32 : (v : ℕ) → (v % u32_mod) % u32_mod ≡ v % u32_mod
twice_u32 v = omega arith

twice_byte : (v : ℕ) → (v % 256) % 256 ≡ v % 256
twice_byte v = omega arith

-- If the message has what a number belongs to, and the object of a search is not NULL, the accessor
-- `write` succeeds, the message keeps it, and the accessor `read` gives what is left of the number.
pub write_header-read_header :
    (f : HeaderField) (m : DndsMessage) (v : ℕ)
    → HeaderFits f v
    → HeaderReady f m
    → (m' : DndsMessage) × (write_header f m v ≡ reply success (some m'))
      × HeaderReady f m'
      × (read_header f m' ≡ reply success (some (header_kept f v)))
unfolding HeaderFits HeaderReady HasDnm HasDsm ReadyDn header_kept write_header read_header
    out_given out_used written reach at_message if_tag at_dnm at_dsm at_dnop put_dn put_ds set_dn
    dnds_message_set_channel dnds_message_get_channel dn_message_set_seq_number
    dn_message_get_seq_number dn_message_set_ack_number dn_message_get_ack_number
    ds_message_set_seq_number ds_message_get_seq_number ds_message_set_ack_number
    ds_message_get_ack_number ds_message_set_action ds_message_get_action p2p_request_set_port
    p2p_request_get_port search_request_set_object_name search_request_get_object_name
    search_request_set_object search_request_get_object
write_header-read_header channel m v fits ready =
    (record m { channel = v % 256 }, refl, tt, rw (twice_byte v) refl)
write_header-read_header dn_seq_number m v fits (d, pdu, at_d) = (
  put_dn m d (record d { seq_number = v % u32_mod }),
  rw (pdu, at_d) refl,
  (_, pdu, refl),
  rw (pdu, twice_u32 v) refl,
)
write_header-read_header dn_ack_number m v fits (d, pdu, at_d) = (
  put_dn m d (record d { ack_number = v % u32_mod }),
  rw (pdu, at_d) refl,
  (_, pdu, refl),
  rw (pdu, twice_u32 v) refl,
)
write_header-read_header ds_seq_number m v fits (d, pdu, at_d) = (
  put_ds m d (record d { seq_number = v % u32_mod }),
  rw (pdu, at_d) refl,
  (_, pdu, refl),
  rw (pdu, twice_u32 v) refl,
)
write_header-read_header ds_ack_number m v fits (d, pdu, at_d) = (
  put_ds m d (record d { ack_number = v % u32_mod }),
  rw (pdu, at_d) refl,
  (_, pdu, refl),
  rw (pdu, twice_u32 v) refl,
)
write_header-read_header ds_action m v fits (d, pdu, at_d) =
    (put_ds m d (record d { action = v }), rw (pdu, at_d) refl, (_, pdu, refl), rw pdu refl)
write_header-read_header p2p_request_port m v fits (d, r, pdu, at_d, op, at_r) =
    let r' = record r { port = v % u32_mod } in
    (
      put_dn m d (record d { choice = p2p_request_member.make r' }),
      rw (pdu, at_d, op, at_r) refl,
      (_, r', pdu, refl, op, p2p_request_member.view-make r'),
      rw (twice_u32 v) refl,
    )
write_header-read_header search_request_object_name m v fits ready =
    set_ds-get_ds search_request_member m _ _ _ ready (λ r. (_, refl, refl))
write_header-read_header search_request_object m v fits ready =
    rw fits (set_ds-get_ds search_request_member m _ _ _ ready (λ r. (_, refl, refl)))
