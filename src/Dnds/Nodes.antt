-- ===== src/Dnds/Nodes.antt =====
-- The accessors of libnvcore/src/dnds.c for a `Node`.
use netvirt.Prelude.{ℕ, ◌%◌, length, Bool, List, Option, some}
use netvirt.Prelude.Bytes.{u32_mod}
use netvirt.Dnds.Types.{Str, no_str, DndsObject, success}
use netvirt.Dnds.Members.{node_member}
use netvirt.Dnds.Access.{
  long_in, AddressText, Reply, reply, written, given, out_given, set_object, get_object, strdup,
  copied, present_or, address_in, ntop,
}

unfoldable pub node_set_context_id :
    (sizeof_long : ℕ) → Option DndsObject → ℕ → Reply (Option DndsObject)
node_set_context_id sizeof_long object v =
    set_object node_member object
      (λ r. written (long_in sizeof_long v) (λ n. record r { context_id = some n }))

unfoldable pub node_get_context_id : Option DndsObject → Bool → Reply (Option ℕ)
node_get_context_id object out = out_given out (
    get_object node_member object
      (λ r. present_or r.context_id (λ v. reply success (some (v % u32_mod)))))

unfoldable pub node_set_context_name :
    Option DndsObject → Option (List ℕ) → ℕ → Reply (Option DndsObject)
node_set_context_name object value length = given object value (λ s.
    set_object node_member object
      (λ r. reply success (record r { context_name = some (strdup s length) })))

unfoldable pub node_get_context_name : Option DndsObject → Bool → Reply (Option Str)
node_get_context_name object out =
    out_given out
      (get_object node_member object (λ r. present_or r.context_name (λ s. reply success (some s))))

unfoldable pub node_set_description :
    Option DndsObject → Option (List ℕ) → ℕ → Reply (Option DndsObject)
node_set_description object value length = given object value (λ s.
    set_object node_member object
      (λ r. reply success (record r { description = some (strdup s length) })))

unfoldable pub node_get_description : Option DndsObject → Bool → Reply (Option Str)
node_get_description object out =
    out_given out
      (get_object node_member object (λ r. present_or r.description (λ s. reply success (some s))))

unfoldable pub node_set_uuid : Option DndsObject → Option (List ℕ) → ℕ → Reply (Option DndsObject)
node_set_uuid object value length = given object value (λ s.
    set_object node_member object (λ r. reply success (record r { uuid = some (strdup s length) })))

unfoldable pub node_get_uuid : Option DndsObject → Bool → Reply (Option Str)
node_get_uuid object out =
    out_given out
      (get_object node_member object (λ r. present_or r.uuid (λ s. reply success (some s))))

unfoldable pub node_set_prov_code :
    Option DndsObject → Option (List ℕ) → ℕ → Reply (Option DndsObject)
node_set_prov_code object value length = given object value (λ s.
    set_object node_member object
      (λ r. reply success (record r { prov_code = some (strdup s length) })))

unfoldable pub node_get_prov_code : Option DndsObject → Bool → Reply (Option Str)
node_get_prov_code object out =
    out_given out
      (get_object node_member object (λ r. present_or r.prov_code (λ s. reply success (some s))))

unfoldable pub node_set_certificate :
    Option DndsObject → Option (List ℕ) → ℕ → Reply (Option DndsObject)
node_set_certificate object value length = given object value (λ s.
    set_object node_member object
      (λ r. reply success (record r { certificate = some (strdup s length) })))

unfoldable pub node_get_certificate : Option DndsObject → Bool → Reply (Option Str)
node_get_certificate object out =
    out_given out
      (get_object node_member object (λ r. present_or r.certificate (λ s. reply success (some s))))

unfoldable pub node_set_certificate_key :
    Option DndsObject → Option (List ℕ) → ℕ → Reply (Option DndsObject)
node_set_certificate_key object value length = given object value (λ s.
    set_object node_member object
      (λ r. written (copied length s) (λ a. record r { certificate_key = some a })))

unfoldable pub node_get_certificate_key : Option DndsObject → Bool → Reply (Option Str)
node_get_certificate_key object out = out_given out (
    get_object node_member object (λ r. present_or r.certificate_key (λ s. reply success (some s))))

unfoldable pub node_set_trusted_cert :
    Option DndsObject → Option (List ℕ) → ℕ → Reply (Option DndsObject)
node_set_trusted_cert object value length = given object value (λ s.
    set_object node_member object
      (λ r. written (copied length s) (λ a. record r { trusted_cert = some a })))

unfoldable pub node_get_trusted_cert : Option DndsObject → Bool → Reply (Option Str)
node_get_trusted_cert object out =
    out_given out
      (get_object node_member object (λ r. present_or r.trusted_cert (λ s. reply success (some s))))

unfoldable pub node_set_ip_address :
    AddressText → Option DndsObject → Option (List ℕ) → Reply (Option DndsObject)
node_set_ip_address text object value = given object value (λ s.
    set_object node_member object
      (λ r. written (address_in text s no_str) (λ a. record r { ip_address = some a })))

unfoldable pub node_get_ip_address :
    AddressText → Option DndsObject → Bool → Reply (Option (List ℕ))
node_get_ip_address text object out = out_given out (
    get_object node_member object
      (λ r. present_or r.ip_address (λ a. present_or a.buf (ntop text))))

unfoldable pub node_set_status : Option DndsObject → ℕ → Reply (Option DndsObject)
node_set_status object v =
    set_object node_member object (λ r. reply success (record r { status = some (v % 256) }))

unfoldable pub node_get_status : Option DndsObject → Bool → Reply (Option ℕ)
node_get_status object out =
    out_given out (
      get_object node_member object
        (λ r. present_or r.status (λ v. reply success (some (v % 256)))))
