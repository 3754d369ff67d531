-- ===== src/Dnds/Fields/Texts.antt =====
-- The texts in the operations of a message, by their accessors in libnvcore/src/dnds.c.
use netvirt.Prelude.{ℕ, ◌≡◌, refl, true, List, Option, some}
use netvirt.Dnds.Types.{Str, DndsMessage, success}
use netvirt.Dnds.Members.{
  auth_request_member, node_conn_info_member, prov_request_member, prov_response_member,
}
use netvirt.Dnds.Access.{Reply, reply, given, out_given, present_or}
use netvirt.Dnds.Access.Laws.{
  ReadyDn, ReadyDs, ReadyProv, set_dn-get_dn, set_ds-get_ds, set_prov-get_prov,
}
use netvirt.Dnds.Dn.{
  auth_request_set_cert_name, auth_request_get_cert_name, prov_request_set_prov_code,
  prov_request_get_prov_code, prov_response_set_certificate, prov_response_get_certificate,
  prov_response_set_certificate_key, prov_response_get_certificate_key,
  prov_response_set_trusted_cert, prov_response_get_trusted_cert,
}
use netvirt.Dnds.Ds.{node_conn_info_set_cert_name, node_conn_info_get_cert_name}

pub data TextField : Type 0 where
  auth_request_cert_name : TextField
  prov_request_prov_code : TextField
  prov_response_certificate : TextField
  prov_response_certificate_key : TextField
  prov_response_trusted_cert : TextField
  node_conn_info_cert_name : TextField

unfoldable pub write_text : TextField → DndsMessage → List ℕ → ℕ → Reply (Option DndsMessage)
write_text auth_request_cert_name m s n = auth_request_set_cert_name (some m) (some s) n
write_text prov_request_prov_code m s n = prov_request_set_prov_code (some m) (some s) n
write_text prov_response_certificate m s n = prov_response_set_certificate (some m) (some s) n
write_text prov_response_certificate_key m s n =
    prov_response_set_certificate_key (some m) (some s) n
write_text prov_response_trusted_cert m s n = prov_response_set_trusted_cert (some m) (some s) n
write_text node_conn_info_cert_name m s n = node_conn_info_set_cert_name (some m) (some s) n

unfoldable pub read_text : TextField → DndsMessage → Reply (Option Str)
read_text auth_request_cert_name m = auth_request_get_cert_name (some m) true
read_text prov_request_prov_code m = prov_request_get_prov_code (some m) true
read_text prov_response_certificate m = prov_response_get_certificate (some m) true
read_text prov_response_certificate_key m = prov_response_get_certificate_key (some m) true
read_text prov_response_trusted_cert m = prov_response_get_trusted_cert (some m) true
read_text node_conn_info_cert_name m = node_conn_info_get_cert_name (some m) true

unfoldable pub TextFieldReady : TextField → DndsMessage → Type 0
TextFieldReady auth_request_cert_name = ReadyDn auth_request_member
TextFieldReady prov_request_prov_code = ReadyProv prov_request_member
TextFieldReady prov_response_certificate = ReadyProv prov_response_member
TextFieldReady prov_response_certificate_key = ReadyProv prov_response_member
TextFieldReady prov_response_trusted_cert = ReadyProv prov_response_member
TextFieldReady node_conn_info_cert_name = ReadyDs node_conn_info_member

-- If the message has the operation that a text belongs to, writing it succeeds, the message keeps
-- that operation, and reading gives a copy of the text with the length that came with it.
pub write_text-read_text :
    (f : TextField) (m : DndsMessage) (s : List ℕ) (n : ℕ)
    → TextFieldReady f m
    → (m' : DndsMessage) × (write_text f m s n ≡ reply success (some m'))
      × TextFieldReady f m'
      × (read_text f m' ≡ reply success (some (record { buf = some s; size = n })))
unfolding given out_given present_or TextFieldReady write_text read_text auth_request_get_cert_name
    auth_request_set_cert_name node_conn_info_get_cert_name node_conn_info_set_cert_name
    prov_request_get_prov_code prov_request_set_prov_code prov_response_get_certificate
    prov_response_get_certificate_key prov_response_get_trusted_cert prov_response_set_certificate
    prov_response_set_certificate_key prov_response_set_trusted_cert
write_text-read_text auth_request_cert_name m s n ready =
    set_dn-get_dn auth_request_member m _ _ _ ready (λ r. (_, refl, refl))
write_text-read_text prov_request_prov_code m s n ready =
    set_prov-get_prov prov_request_member m _ _ _ ready (λ r. (_, refl, refl))
write_text-read_text prov_response_certificate m s n ready =
    set_prov-get_prov prov_response_member m _ _ _ ready (λ r. (_, refl, refl))
write_text-read_text prov_response_certificate_key m s n ready =
    set_prov-get_prov prov_response_member m _ _ _ ready (λ r. (_, refl, refl))
write_text-read_text prov_response_trusted_cert m s n ready =
    set_prov-get_prov prov_response_member m _ _ _ ready (λ r. (_, refl, refl))
write_text-read_text node_conn_info_cert_name m s n ready =
    set_ds-get_ds node_conn_info_member m _ _ _ ready (λ r. (_, refl, refl))
