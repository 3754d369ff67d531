-- ===== src/Dnds/Fields/ObjectTexts.antt =====
-- The texts of the objects, by their accessors in libnvcore/src/dnds.c.
use netvirt.Prelude.{ℕ, ◌≡◌, refl, true, List, length, Option, some}
use netvirt.Dnds.Types.{Str, DndsObject, success}
use netvirt.Dnds.Members.{client_member, context_member, node_member}
use netvirt.Dnds.Access.{
  Reply, reply, given, out_given, written, reach, copied, present_or, set_object,
}
use netvirt.Dnds.Access.Laws.{bytes_of-length, ReadyObject, set_object-get_object}
use netvirt.Dnds.Contexts.{
  context_set_description, context_get_description, context_set_server_cert,
  context_get_server_cert, context_set_server_privkey, context_get_server_privkey,
  context_set_trusted_cert, context_get_trusted_cert,
}
use netvirt.Dnds.Nodes.{
  node_set_context_name, node_get_context_name, node_set_description, node_get_description,
  node_set_uuid, node_get_uuid, node_set_prov_code, node_get_prov_code, node_set_certificate,
  node_get_certificate, node_set_certificate_key, node_get_certificate_key, node_set_trusted_cert,
  node_get_trusted_cert,
}
use netvirt.Dnds.Clients.{
  client_set_password, client_get_password, client_set_apikey, client_get_apikey, client_set_email,
  client_get_email,
}

pub data ObjectText : Type 0 where
  context_description : ObjectText
  context_server_cert : ObjectText
  context_server_privkey : ObjectText
  context_trusted_cert : ObjectText
  node_context_name : ObjectText
  node_description : ObjectText
  node_uuid : ObjectText
  node_prov_code : ObjectText
  node_certificate : ObjectText
  node_certificate_key : ObjectText
  node_trusted_cert : ObjectText
  client_password : ObjectText
  client_apikey : ObjectText
  client_email : ObjectText

unfoldable pub write_object_text : ObjectText → DndsObject → List ℕ → ℕ → Reply (Option DndsObject)
write_object_text context_description o s n = context_set_description (some o) (some s) n
write_object_text context_server_cert o s n = context_set_server_cert (some o) (some s) n
write_object_text context_server_privkey o s n = context_set_server_privkey (some o) (some s) n
write_object_text context_trusted_cert o s n = context_set_trusted_cert (some o) (some s) n
write_object_text node_context_name o s n = node_set_context_name (some o) (some s) n
write_object_text node_description o s n = node_set_description (some o) (some s) n
write_object_text node_uuid o s n = node_set_uuid (some o) (some s) n
write_object_text node_prov_code o s n = node_set_prov_code (some o) (some s) n
write_object_text node_certificate o s n = node_set_certificate (some o) (some s) n
write_object_text node_certificate_key o s n = node_set_certificate_key (some o) (some s) n
write_object_text node_trusted_cert o s n = node_set_trusted_cert (some o) (some s) n
write_object_text client_password o s n = client_set_password (some o) (some s) n
write_object_text client_apikey o s n = client_set_apikey (some o) (some s) n
write_object_text client_email o s n = client_set_email (some o) (some s) n

unfoldable pub read_object_text : ObjectText → DndsObject → Reply (Option Str)
read_object_text context_description o = context_get_description (some o) true
read_object_text context_server_cert o = context_get_server_cert (some o) true
read_object_text context_server_privkey o = context_get_server_privkey (some o) true
read_object_text context_trusted_cert o = context_get_trusted_cert (some o) true
read_object_text node_context_name o = node_get_context_name (some o) true
read_object_text node_description o = node_get_description (some o) true
read_object_text node_uuid o = node_get_uuid (some o) true
read_object_text node_prov_code o = node_get_prov_code (some o) true
read_object_text node_certificate o = node_get_certificate (some o) true
read_object_text node_certificate_key o = node_get_certificate_key (some o) true
read_object_text node_trusted_cert o = node_get_trusted_cert (some o) true
read_object_text client_password o = client_get_password (some o) true
read_object_text client_apikey o = client_get_apikey (some o) true
read_object_text client_email o = client_get_email (some o) true

unfoldable pub ObjectTextReady : ObjectText → DndsObject → Type 0
ObjectTextReady context_description = ReadyObject context_member
ObjectTextReady context_server_cert = ReadyObject context_member
ObjectTextReady context_server_privkey = ReadyObject context_member
ObjectTextReady context_trusted_cert = ReadyObject context_member
ObjectTextReady node_context_name = ReadyObject node_member
ObjectTextReady node_description = ReadyObject node_member
ObjectTextReady node_uuid = ReadyObject node_member
ObjectTextReady node_prov_code = ReadyObject node_member
ObjectTextReady node_certificate = ReadyObject node_member
ObjectTextReady node_certificate_key = ReadyObject node_member
ObjectTextReady node_trusted_cert = ReadyObject node_member
ObjectTextReady client_password = ReadyObject client_member
ObjectTextReady client_apikey = ReadyObject client_member
ObjectTextReady client_email = ReadyObject client_member

-- If the object has the type that a text belongs to, writing it with its own length succeeds, the
-- object keeps that type, and that text and length are read back.
pub write_object_text-read_object_text :
    (f : ObjectText) (o : DndsObject) (s : List ℕ)
    → ObjectTextReady f o
    → (o' : DndsObject) × (write_object_text f o s (length s) ≡ reply success (some o'))
      × ObjectTextReady f o'
      × (read_object_text f o' ≡ reply success (some (record { buf = some s; size = length s })))
unfolding given out_given set_object present_or written copied reach ObjectTextReady
    write_object_text read_object_text client_get_apikey client_get_email client_get_password
    client_set_apikey client_set_email client_set_password context_get_description
    context_get_server_cert context_get_server_privkey context_get_trusted_cert
    context_set_description context_set_server_cert context_set_server_privkey
    context_set_trusted_cert node_get_certificate node_get_certificate_key node_get_context_name
    node_get_description node_get_prov_code node_get_trusted_cert node_get_uuid node_set_certificate
    node_set_certificate_key node_set_context_name node_set_description node_set_prov_code
    node_set_trusted_cert node_set_uuid
write_object_text-read_object_text context_description o s ready =
    set_object-get_object context_member o _ _ _ _ ready (λ r. (_, refl, refl))
write_object_text-read_object_text context_server_cert o s ready =
    set_object-get_object context_member o _ _ _ _ ready (λ r. (_, refl, refl))
write_object_text-read_object_text context_server_privkey o s ready =
    set_object-get_object context_member o _ _ _ _ ready (λ r. (_, refl, refl))
write_object_text-read_object_text context_trusted_cert o s ready =
    set_object-get_object context_member o _ _ _ _ ready (λ r. (_, refl, refl))
write_object_text-read_object_text node_context_name o s ready =
    set_object-get_object node_member o _ _ _ _ ready (λ r. (_, refl, refl))
write_object_text-read_object_text node_description o s ready =
    set_object-get_object node_member o _ _ _ _ ready (λ r. (_, refl, refl))
write_object_text-read_object_text node_uuid o s ready =
    set_object-get_object node_member o _ _ _ _ ready (λ r. (_, refl, refl))
write_object_text-read_object_text node_prov_code o s ready =
    set_object-get_object node_member o _ _ _ _ ready (λ r. (_, refl, refl))
write_object_text-read_object_text node_certificate o s ready =
    set_object-get_object node_member o _ _ _ _ ready (λ r. (_, refl, refl))
write_object_text-read_object_text node_certificate_key o s ready =
    set_object-get_object node_member o _ _ _ _ ready (λ r. (
      record r { certificate_key = some (record { buf = some s; size = length s }) },
      rw (bytes_of-length s) refl,
      refl,
    ))
write_object_text-read_object_text node_trusted_cert o s ready =
    set_object-get_object node_member o _ _ _ _ ready (λ r. (
      record r { trusted_cert = some (record { buf = some s; size = length s }) },
      rw (bytes_of-length s) refl,
      refl,
    ))
write_object_text-read_object_text client_password o s ready =
    set_object-get_object client_member o _ _ _ _ ready (λ r. (_, refl, refl))
write_object_text-read_object_text client_apikey o s ready =
    set_object-get_object client_member o _ _ _ _ ready (λ r. (_, refl, refl))
write_object_text-read_object_text client_email o s ready =
    set_object-get_object client_member o _ _ _ _ ready (λ r. (_, refl, refl))
