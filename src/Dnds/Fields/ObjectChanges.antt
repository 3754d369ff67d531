-- ===== src/Dnds/Fields/ObjectChanges.antt =====
-- A change of one field of an object by its accessor of libnvcore/src/dnds.c, and reading it back.
use netvirt.Prelude.{ℕ, false, ltb, ◌&&◌, ◌≡◌, List, length, Option, some}
use netvirt.Dnds.Types.{DndsObject, success}
use netvirt.Dnds.Access.{AddressText, Reply, reply}
use netvirt.Dnds.Fields.ObjectNumbers.{
  ObjectNumber, ObjectNumberReady, write_object_number, read_object_number, width, is_long,
}
use netvirt.Dnds.Fields.ObjectTexts.{
  ObjectText, ObjectTextReady, write_object_text, read_object_text,
}
use netvirt.Dnds.Fields.ObjectAddresses.{
  ObjectAddress, ObjectAddressReady, write_object_address, read_object_address,
}

pub data ObjectChange : Type 0 where
  number : ObjectNumber → ℕ → ObjectChange
  text : ObjectText → List ℕ → ObjectChange
  address : ObjectAddress → List ℕ → ObjectChange

-- The object has the type that the field belongs to.
unfoldable pub ObjectReady : ObjectChange → DndsObject → Type 0
ObjectReady (number f v) = ObjectNumberReady f
ObjectReady (text f s) = ObjectTextReady f
ObjectReady (address f s) = ObjectAddressReady f

module _ (inet : AddressText) (sizeof_long : ℕ) where
  unfoldable pub change_object : ObjectChange → DndsObject → Reply (Option DndsObject)
  change_object (number f v) o = write_object_number sizeof_long f o v
  change_object (text f s) o = write_object_text f o s (length s)
  change_object (address f s) o = write_object_address inet f o s

  -- An identifier needs an `unsigned long` of four bytes at most, and the text of an IP address is one
  -- that `inet_pton` can read.
  unfoldable pub ObjectFits : ObjectChange → Type 0
  ObjectFits (number f v) = (is_long f && ltb 4 sizeof_long) ≡ false
  ObjectFits (text f s) = Unit
  ObjectFits (address f s) = (b : List ℕ) × (inet.inet_pton s ≡ some b)

  -- The getter gives the value of the change: a number modulo the width of its type, an IP address
  -- as a text for the same four bytes.
  unfoldable pub ObjectReads : ObjectChange → DndsObject → Type 0
  ObjectReads (number f v) o = read_object_number f o ≡ reply success (some (width f v))
  ObjectReads (text f s) o =
      read_object_text f o ≡ reply success (some (record { buf = some s; size = length s }))
  ObjectReads (address f s) o =
      (s' : List ℕ) × (read_object_address inet f o ≡ reply success (some s'))
      × (inet.inet_pton s' ≡ inet.inet_pton s)
