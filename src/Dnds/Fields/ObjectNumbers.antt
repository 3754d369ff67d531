-- ===== src/Dnds/Fields/ObjectNumbers.antt =====
-- The numbers of the objects, by their accessors in libnvcore/src/dnds.c.
use netvirt.Prelude.{ℕ, ◌≡◌, ◌%◌, refl, ap, arith, leb, ltb, ◌&&◌, Bool, true, false, Option, some}
use netvirt.Prelude.Bytes.{u32_mod}
use netvirt.Dnds.Types.{DndsObject, success}
use netvirt.Dnds.Members.{client_member, context_member, node_member}
use netvirt.Dnds.Access.{
  Reply, reply, wild, given, out_given, written, long_in, reach, if_tag, at_object, present_or,
  set_object, set_object_or,
}
use netvirt.Dnds.Access.Laws.{ReadyObject, set_object-get_object}
use netvirt.Dnds.Contexts.{
  context_set_id, context_get_id, context_set_client_id, context_get_client_id,
}
use netvirt.Dnds.Nodes.{node_set_context_id, node_get_context_id, node_set_status, node_get_status}
use netvirt.Dnds.Clients.{client_set_id, client_get_id, client_set_status, client_get_status}

pub data ObjectNumber : Type 0 where
  context_id : ObjectNumber
  context_client_id : ObjectNumber
  node_context_id : ObjectNumber
  node_status : ObjectNumber
  client_id : ObjectNumber
  client_status : ObjectNumber

unfoldable pub write_object_number :
    (sizeof_long : ℕ) → ObjectNumber → DndsObject → ℕ → Reply (Option DndsObject)
write_object_number sizeof_long context_id o v = context_set_id sizeof_long (some o) v
write_object_number sizeof_long context_client_id o v = context_set_client_id sizeof_long (some o) v
write_object_number sizeof_long node_context_id o v = node_set_context_id sizeof_long (some o) v
write_object_number sizeof_long node_status o v = node_set_status (some o) v
write_object_number sizeof_long client_id o v = client_set_id sizeof_long (some o) v
write_object_number sizeof_long client_status o v = client_set_status (some o) v

unfoldable pub read_object_number : ObjectNumber → DndsObject → Reply (Option ℕ)
read_object_number context_id o = context_get_id (some o) true
read_object_number context_client_id o = context_get_client_id (some o) true
read_object_number node_context_id o = node_get_context_id (some o) true
read_object_number node_status o = node_get_status (some o) true
read_object_number client_id o = client_get_id (some o) true
read_object_number client_status o = client_get_status (some o) true

unfoldable pub ObjectNumberReady : ObjectNumber → DndsObject → Type 0
ObjectNumberReady context_id = ReadyObject context_member
ObjectNumberReady context_client_id = ReadyObject context_member
ObjectNumberReady node_context_id = ReadyObject node_member
ObjectNumberReady node_status = ReadyObject node_member
ObjectNumberReady client_id = ReadyObject client_member
ObjectNumberReady client_status = ReadyObject client_member

-- `uint32_t`, or `uint8_t` for a status.
unfoldable pub width : ObjectNumber → ℕ → ℕ
width context_id v = v % u32_mod
width context_client_id v = v % u32_mod
width node_context_id v = v % u32_mod
width node_status v = v % 256
width client_id v = v % u32_mod
width client_status v = v % 256

-- The identifiers are stored as `unsigned long` into four bytes.
unfoldable pub is_long : ObjectNumber → Bool
is_long context_id = true
is_long context_client_id = true
is_long node_context_id = true
is_long node_status = false
is_long client_id = true
is_long client_status = false

module _ (sizeof_long : ℕ) where
  -- If an `unsigned long` has four bytes at most and the object has the type that a number belongs to,
  -- writing it succeeds, the object keeps that type, and what is read back is the number, modulo the
  -- width of the accessor's type.
  pub write_object_number-read_object_number :
      (f : ObjectNumber) (o : DndsObject) (v : ℕ)
      → (is_long f && ltb 4 sizeof_long) ≡ false
      → ObjectNumberReady f o
      → (o' : DndsObject) × (write_object_number sizeof_long f o v ≡ reply success (some o'))
        × ObjectNumberReady f o'
        × (read_object_number f o' ≡ reply success (some (width f v)))
  unfolding given out_given written long_in set_object present_or width is_long ObjectNumberReady
      write_object_number read_object_number client_get_id client_get_status client_set_id
      client_set_status context_get_client_id context_get_id context_set_client_id context_set_id
      node_get_context_id node_get_status node_set_context_id node_set_status
  write_object_number-read_object_number context_id o v small ready =
      let fits : leb sizeof_long 4 ≡ true = ground arith in
      set_object-get_object context_member o _ _ _ _ ready (λ r. (
        record r { id = some (v % u32_mod) },
        rw fits refl,
        ap (λ x. reply success (some x)) (omega arith),
      ))
  write_object_number-read_object_number context_client_id o v small ready =
      let fits : leb sizeof_long 4 ≡ true = ground arith in
      set_object-get_object context_member o _ _ _ _ ready (λ r. (
        record r { client_id = some (v % u32_mod) },
        rw fits refl,
        ap (λ x. reply success (some x)) (omega arith),
      ))
  write_object_number-read_object_number node_context_id o v small ready =
      let fits : leb sizeof_long 4 ≡ true = ground arith in
      set_object-get_object node_member o _ _ _ _ ready (λ r. (
        record r { context_id = some (v % u32_mod) },
        rw fits refl,
        ap (λ x. reply success (some x)) (omega arith),
      ))
  write_object_number-read_object_number node_status o v small ready =
      set_object-get_object node_member o _ _ _ _ ready
        (λ r. (_, refl, ap (λ x. reply success (some x)) (omega arith)))
  write_object_number-read_object_number client_id o v small ready =
      let fits : leb sizeof_long 4 ≡ true = ground arith in
      set_object-get_object client_member o _ _ _ _ ready (λ r. (
        record r { id = some (v % u32_mod) },
        rw fits refl,
        ap (λ x. reply success (some x)) (omega arith),
      ))
  write_object_number-read_object_number client_status o v small ready =
      set_object-get_object client_member o _ _ _ _ ready
        (λ r. (_, refl, ap (λ x. reply success (some x)) (omega arith)))

  -- With a wider `unsigned long` every identifier is written past the end of its block.
  pub write_long-wild :
      (f : ObjectNumber) (o : DndsObject) (v : ℕ)
      → (is_long f && ltb 4 sizeof_long) ≡ true
      → ObjectNumberReady f o
      → write_object_number sizeof_long f o v ≡ wild
  unfolding given written long_in reach if_tag at_object set_object set_object_or is_long
      ObjectNumberReady ReadyObject write_object_number client_set_id context_set_client_id
      context_set_id node_set_context_id
  write_long-wild context_id o v wide (r, tag, at_r) =
      let over : leb sizeof_long 4 ≡ false = ground arith in rw (tag, at_r, over) refl
  write_long-wild context_client_id o v wide (r, tag, at_r) =
      let over : leb sizeof_long 4 ≡ false = ground arith in rw (tag, at_r, over) refl
  write_long-wild node_context_id o v wide (r, tag, at_r) =
      let over : leb sizeof_long 4 ≡ false = ground arith in rw (tag, at_r, over) refl
  write_long-wild node_status o v wide ready = absurd (cc wide)
  write_long-wild client_id o v wide (r, tag, at_r) =
      let over : leb sizeof_long 4 ≡ false = ground arith in rw (tag, at_r, over) refl
  write_long-wild client_status o v wide ready = absurd (cc wide)
