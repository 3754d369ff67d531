-- ===== src/Dnds/Contexts.antt =====
-- The accessors of libnvcore/src/dnds.c for a `Context`.
use netvirt.Prelude.{ℕ, ◌%◌, length, Bool, List, Option, some}
use netvirt.Prelude.Bytes.{u32_mod}
use netvirt.Dnds.Types.{Str, no_str, DndsObject, success, alloc_failed}
use netvirt.Dnds.Members.{context_member}
use netvirt.Dnds.Access.{
  long_in, AddressText, Reply, reply, written, given, out_given, set_object_or, set_object,
  get_object, strdup, present_or, address_in, ntop,
}

unfoldable pub context_set_id :
    (sizeof_long : ℕ) → Option DndsObject → ℕ → Reply (Option DndsObject)
context_set_id sizeof_long object v =
    set_object context_member object
      (λ r. written (long_in sizeof_long v) (λ n. record r { id = some n }))

unfoldable pub context_get_id : Option DndsObject → Bool → Reply (Option ℕ)
context_get_id object out = out_given out (
    get_object context_member object
      (λ r. present_or r.id (λ v. reply success (some (v % u32_mod)))))

-- Another type of object is refused with a code of its own.
unfoldable pub context_set_client_id :
    (sizeof_long : ℕ) → Option DndsObject → ℕ → Reply (Option DndsObject)
context_set_client_id sizeof_long object v =
    set_object_or context_member object alloc_failed
      (λ r. written (long_in sizeof_long v) (λ n. record r { client_id = some n }))

unfoldable pub context_get_client_id : Option DndsObject → Bool → Reply (Option ℕ)
context_get_client_id object out = out_given out (
    get_object context_member object
      (λ r. present_or r.client_id (λ v. reply success (some (v % u32_mod)))))

unfoldable pub context_set_description :
    Option DndsObject → Option (List ℕ) → ℕ → Reply (Option DndsObject)
context_set_description object value length = given object value (λ s.
    set_object context_member object
      (λ r. reply success (record r { description = some (strdup s length) })))

unfoldable pub context_get_description : Option DndsObject → Bool → Reply (Option Str)
context_get_description object out =
    out_given out (
      get_object context_member object
        (λ r. present_or r.description (λ s. reply success (some s))))

unfoldable pub context_set_network :
    AddressText → Option DndsObject → Option (List ℕ) → Reply (Option DndsObject)
context_set_network text object value = given object value (λ s.
    set_object context_member object
      (λ r. written (address_in text s no_str) (λ a. record r { network = some a })))

unfoldable pub context_get_network :
    AddressText → Option DndsObject → Bool → Reply (Option (List ℕ))
context_get_network text object out = out_given out (
    get_object context_member object
      (λ r. present_or r.network (λ a. present_or a.buf (ntop text))))

unfoldable pub context_set_netmask :
    AddressText → Option DndsObject → Option (List ℕ) → Reply (Option DndsObject)
context_set_netmask text object value = given object value (λ s.
    set_object context_member object
      (λ r. written (address_in text s no_str) (λ a. record r { netmask = some a })))

unfoldable pub context_get_netmask :
    AddressText → Option DndsObject → Bool → Reply (Option (List ℕ))
context_get_netmask text object out = out_given out (
    get_object context_member object
      (λ r. present_or r.netmask (λ a. present_or a.buf (ntop text))))

unfoldable pub context_set_server_cert :
    Option DndsObject → Option (List ℕ) → ℕ → Reply (Option DndsObject)
context_set_server_cert object value length = given object value (λ s.
    set_object context_member object
      (λ r. reply success (record r { server_cert = some (strdup s length) })))

unfoldable pub context_get_server_cert : Option DndsObject → Bool → Reply (Option Str)
context_get_server_cert object out =
    out_given out (
      get_object context_member object
        (λ r. present_or r.server_cert (λ s. reply success (some s))))

unfoldable pub context_set_server_privkey :
    Option DndsObject → Option (List ℕ) → ℕ → Reply (Option DndsObject)
context_set_server_privkey object value length = given object value (λ s.
    set_object context_member object
      (λ r. reply success (record r { server_privkey = some (strdup s length) })))

unfoldable pub context_get_server_privkey : Option DndsObject → Bool → Reply (Option Str)
context_get_server_privkey object out = out_given out (
    get_object context_member object
      (λ r. present_or r.server_privkey (λ s. reply success (some s))))

unfoldable pub context_set_trusted_cert :
    Option DndsObject → Option (List ℕ) → ℕ → Reply (Option DndsObject)
context_set_trusted_cert object value length = given object value (λ s.
    set_object context_member object
      (λ r. reply success (record r { trusted_cert = some (strdup s length) })))

unfoldable pub context_get_trusted_cert : Option DndsObject → Bool → Reply (Option Str)
context_get_trusted_cert object out = out_given out (
    get_object context_member object (λ r. present_or r.trusted_cert (λ s. reply success (some s))))
