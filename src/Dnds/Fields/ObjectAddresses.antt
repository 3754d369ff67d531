-- ===== src/Dnds/Fields/ObjectAddresses.antt =====
-- The IP addresses of the objects, by their accessors in libnvcore/src/dnds.c.
use netvirt.Prelude.{ℕ, ◌≡◌, refl, true, List, Option, some}
use netvirt.Dnds.Types.{no_str, DndsObject, success}
use netvirt.Dnds.Members.{context_member, node_member}
use netvirt.Dnds.Access.{
  AddressText, Reply, reply, given, out_given, written, present_or, set_object,
}
use netvirt.Dnds.Access.Laws.{
  address_in-inet_pton, ntop-inet_ntop, ReadyObject, set_object-get_object,
}
use netvirt.Dnds.Contexts.{
  context_set_network, context_get_network, context_set_netmask, context_get_netmask,
}
use netvirt.Dnds.Nodes.{node_set_ip_address, node_get_ip_address}

pub data ObjectAddress : Type 0 where
  context_network : ObjectAddress
  context_netmask : ObjectAddress
  node_ip_address : ObjectAddress

unfoldable pub write_object_address :
    AddressText → ObjectAddress → DndsObject → List ℕ → Reply (Option DndsObject)
write_object_address text context_network o s = context_set_network text (some o) (some s)
write_object_address text context_netmask o s = context_set_netmask text (some o) (some s)
write_object_address text node_ip_address o s = node_set_ip_address text (some o) (some s)

unfoldable pub read_object_address :
    AddressText → ObjectAddress → DndsObject → Reply (Option (List ℕ))
read_object_address text context_network o = context_get_network text (some o) true
read_object_address text context_netmask o = context_get_netmask text (some o) true
read_object_address text node_ip_address o = node_get_ip_address text (some o) true

unfoldable pub ObjectAddressReady : ObjectAddress → DndsObject → Type 0
ObjectAddressReady context_network = ReadyObject context_member
ObjectAddressReady context_netmask = ReadyObject context_member
ObjectAddressReady node_ip_address = ReadyObject node_member

module _ (text : AddressText) where
  -- If the object has the type that an IP address belongs to, and `inet_pton` can read the text,
  -- writing it succeeds, the object keeps that type, and what is read back is a text for the same four
  -- bytes.
  pub write_object_address-read_object_address :
      (f : ObjectAddress) (o : DndsObject) (s b : List ℕ)
      → text.inet_pton s ≡ some b
      → ObjectAddressReady f o
      → (o' : DndsObject) × (s' : List ℕ) × (write_object_address text f o s
          ≡ reply success (some o'))
        × ObjectAddressReady f o'
        × (read_object_address text f o' ≡ reply success (some s'))
        × (text.inet_pton s' ≡ some b)
  unfolding given out_given set_object present_or written ObjectAddressReady write_object_address
      read_object_address context_get_netmask context_get_network context_set_netmask
      context_set_network node_get_ip_address node_set_ip_address
  write_object_address-read_object_address context_network o s b is_b ready =
      let (s', to_text, to_bytes) = text.inet_pton-inet_ntop b (text.inet_pton-length s b is_b) in
      let (o', done, ready', got) = set_object-get_object context_member o _ _ _ s' ready (λ r. (
        record r { network = (some (record { buf = some b; size = 4 })) },
        rw (address_in-inet_pton text s b no_str is_b) refl,
        ntop-inet_ntop text s' b to_text,
      )) in
      (o', s', done, ready', got, to_bytes)
  write_object_address-read_object_address context_netmask o s b is_b ready =
      let (s', to_text, to_bytes) = text.inet_pton-inet_ntop b (text.inet_pton-length s b is_b) in
      let (o', done, ready', got) = set_object-get_object context_member o _ _ _ s' ready (λ r. (
        record r { netmask = (some (record { buf = some b; size = 4 })) },
        rw (address_in-inet_pton text s b no_str is_b) refl,
        ntop-inet_ntop text s' b to_text,
      )) in
      (o', s', done, ready', got, to_bytes)
  write_object_address-read_object_address node_ip_address o s b is_b ready =
      let (s', to_text, to_bytes) = text.inet_pton-inet_ntop b (text.inet_pton-length s b is_b) in
      let (o', done, ready', got) = set_object-get_object node_member o _ _ _ s' ready (λ r. (
        record r { ip_address = (some (record { buf = some b; size = 4 })) },
        rw (address_in-inet_pton text s b no_str is_b) refl,
        ntop-inet_ntop text s' b to_text,
      )) in
      (o', s', done, ready', got, to_bytes)
