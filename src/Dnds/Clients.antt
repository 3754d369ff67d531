-- ===== src/Dnds/Clients.antt =====
-- The accessors of libnvcore/src/dnds.c for a `Client`. Where two of them test `context.id`, they
-- test `client.id`: both are the first field of their member of the union.
use netvirt.Prelude.{ℕ, ◌%◌, length, Bool, List, Option, some}
use netvirt.Prelude.Bytes.{u32_mod}
use netvirt.Dnds.Types.{Str, DndsObject, success}
use netvirt.Dnds.Members.{client_member}
use netvirt.Dnds.Access.{
  long_in, written, Reply, reply, given, out_given, set_object, get_object, strdup, present_or,
}

unfoldable pub client_set_id : (sizeof_long : ℕ) → Option DndsObject → ℕ → Reply (Option DndsObject)
client_set_id sizeof_long object v =
    set_object client_member object
      (λ r. written (long_in sizeof_long v) (λ n. record r { id = some n }))

unfoldable pub client_get_id : Option DndsObject → Bool → Reply (Option ℕ)
client_get_id object out = out_given out (
    get_object client_member object
      (λ r. present_or r.id (λ v. reply success (some (v % u32_mod)))))

unfoldable pub client_set_password :
    Option DndsObject → Option (List ℕ) → ℕ → Reply (Option DndsObject)
client_set_password object value length = given object value (λ s.
    set_object client_member object
      (λ r. reply success (record r { password = some (strdup s length) })))

unfoldable pub client_get_password : Option DndsObject → Bool → Reply (Option Str)
client_get_password object out =
    out_given out
      (get_object client_member object (λ r. present_or r.password (λ s. reply success (some s))))

unfoldable pub client_set_apikey :
    Option DndsObject → Option (List ℕ) → ℕ → Reply (Option DndsObject)
client_set_apikey object value length = given object value (λ s.
    set_object client_member object
      (λ r. reply success (record r { apikey = some (strdup s length) })))

unfoldable pub client_get_apikey : Option DndsObject → Bool → Reply (Option Str)
client_get_apikey object out =
    out_given out
      (get_object client_member object (λ r. present_or r.apikey (λ s. reply success (some s))))

unfoldable pub client_set_email :
    Option DndsObject → Option (List ℕ) → ℕ → Reply (Option DndsObject)
client_set_email object value length = given object value (λ s.
    set_object client_member object
      (λ r. reply success (record r { email = some (strdup s length) })))

unfoldable pub client_get_email : Option DndsObject → Bool → Reply (Option Str)
client_get_email object out =
    out_given out
      (get_object client_member object (λ r. present_or r.email (λ s. reply success (some s))))

unfoldable pub client_set_status : Option DndsObject → ℕ → Reply (Option DndsObject)
client_set_status object v =
    set_object client_member object (λ r. reply success (record r { status = some (v % 256) }))

unfoldable pub client_get_status : Option DndsObject → Bool → Reply (Option ℕ)
client_get_status object out = out_given out (
    get_object client_member object
      (λ r. present_or r.status (λ v. reply success (some (v % 256)))))
