-- ===== src/Dnds/Fields/Changes.antt =====
-- A change of one field of a message by its accessor of libnvcore/src/dnds.c, and reading it back: the
-- fields of a message and of its operations that have both accessors, the lists of objects excepted.
pub mod Refusals
use netvirt.Prelude.{ℕ, true, ◌≡◌, List, length, Option, none, some}
use netvirt.Dnds.Types.{Str, PduPr, DnopPr, DsopPr, DndsMessage, Code, success}
use netvirt.Dnds.Access.{AddressText, Reply, reply}
use netvirt.Dnds.Message.{
  dnds_message_set_pdu, dnds_message_get_pdu, dnds_message_set_ethernet, dnds_message_get_ethernet,
  dn_message_set_operation, dn_message_get_operation, ds_message_set_operation,
  ds_message_get_operation,
}
use netvirt.Dnds.Fields.Headers.{
  HeaderField, HeaderReady, HeaderFits, HasDnm, HasDsm, write_header, read_header, header_kept,
}
use netvirt.Dnds.Fields.Numbers.{NumberField, NumberFieldReady, write_number, read_number}
use netvirt.Dnds.Fields.Texts.{TextField, TextFieldReady, write_text, read_text}
use netvirt.Dnds.Fields.Macs.{MacField, MacFieldReady, write_mac, read_mac}
use netvirt.Dnds.Fields.Addresses.{AddressField, AddressFieldReady, write_address, read_address}

pub data Change : Type 0 where
  number : NumberField → ℕ → Change
  text : TextField → List ℕ → ℕ → Change
  mac : MacField → List ℕ → Change
  address : AddressField → List ℕ → Change
  header : HeaderField → ℕ → Change
  dn_operation : DnopPr → Change
  ds_operation : DsopPr → Change
  pdu : PduPr → Change
  frame : List ℕ → ℕ → Change

-- The message has the operation, or the PDU, that the field belongs to.
unfoldable pub Ready : Change → DndsMessage → Type 0
Ready (number f v) = NumberFieldReady f
Ready (text f s n) = TextFieldReady f
Ready (mac f s) = MacFieldReady f
Ready (address f s) = AddressFieldReady f
Ready (header f v) = HeaderReady f
Ready (dn_operation operation) = HasDnm
Ready (ds_operation operation) = HasDsm
Ready (pdu present) = λ m. Unit
Ready (frame s n) = λ m. Unit

module _ (inet : AddressText) where
  unfoldable pub change : Change → DndsMessage → Reply (Option DndsMessage)
  change (number f v) m = write_number f m v
  change (text f s n) m = write_text f m s n
  change (mac f s) m = write_mac f m s
  change (address f s) m = write_address inet f m s
  change (header f v) m = write_header f m v
  change (dn_operation operation) m = dn_message_set_operation (some m) operation
  change (ds_operation operation) m = ds_message_set_operation (some m) operation
  change (pdu present) m = dnds_message_set_pdu (some m) present
  change (frame s n) m = dnds_message_set_ethernet (some m) (some s) n

  -- A MAC address has six bytes, the text of an IP address is one that `inet_pton` can read, and the
  -- object of a search is not NULL.
  unfoldable pub Fits : Change → Type 0
  Fits (number f v) = Unit
  Fits (text f s n) = Unit
  Fits (mac f s) = length s ≡ 6
  Fits (address f s) = (b : List ℕ) × (inet.inet_pton s ≡ some b)
  Fits (header f v) = HeaderFits f v
  Fits (dn_operation operation) = Unit
  Fits (ds_operation operation) = Unit
  Fits (pdu present) = Unit
  Fits (frame s n) = Unit

  -- The getter gives the value of the change: for a text or a frame with the length that came with it,
  -- for an IP address as a text for the same four bytes, for a channel, a sequence number, an
  -- acknowledgement and a port what is left of it in its field.
  unfoldable pub Reads : Change → DndsMessage → Type 0
  Reads (number f v) m = read_number f m ≡ reply success (some v)
  Reads (text f s n) m = read_text f m ≡ reply success (some (record { buf = some s; size = n }))
  Reads (mac f s) m = read_mac f m ≡ reply success (some s)
  Reads (address f s) m =
      (s' : List ℕ) × (read_address inet f m ≡ reply success (some s'))
      × (inet.inet_pton s' ≡ inet.inet_pton s)
  Reads (header f v) m = read_header f m ≡ reply success (some (header_kept f v))
  Reads (dn_operation operation) m =
      dn_message_get_operation (some m) true ≡ reply success (some operation)
  Reads (ds_operation operation) m =
      ds_message_get_operation (some m) true ≡ reply success (some operation)
  Reads (pdu present) m = dnds_message_get_pdu (some m) true ≡ reply success (some present)
  Reads (frame s n) m =
      dnds_message_get_ethernet (some m) true
      ≡ reply success (some (record { buf = some s; size = n }))
