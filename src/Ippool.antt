-- ===== src/Ippool.antt =====
-- nvctrler/src/ippool.c: the addresses of a network. An address is its value in the byte order of
-- the host, so that `ntohl` and `htonl` are not written; `inet_aton` and `inet_ntoa` are outside.
pub mod Laws
use netvirt.Prelude.{
  ℕ, ◌+◌, ◌*◌, ◌/◌, ◌%◌, ◌-◌, ◌==◌, ltb, leb, if◌then◌else◌, Bool, true, false, List, Option, none,
  some, drop, replicate,
}
use netvirt.Prelude.Bytes.{u32_mod, u64_mod}
use netvirt.Bitmap.{set_bit, clear_bit, find_byte, find_bit, Alloc, full, stuck, allocated}

-- `struct ippool`
pub record Ippool : Type 0 where
  pub hosts : ℕ
  pub hostmin : ℕ
  pub hostmax : ℕ
  pub address : ℕ
  pub netmask : ℕ
  pub pool : List ℕ

-- That `calloc` succeeds is taken for granted.
unfoldable pub alloc_bitmap : ℕ → List ℕ
alloc_bitmap bits = replicate ((bits + 7) / 8) 0

-- `full` is a 0 and `allocated bit bitmap` a 1. Unlike the pool of the switch it looks at a last
-- byte in part, and `bits` itself is a bit that it hands out.
unfoldable pub allocate_bit : List ℕ → ℕ → Alloc
allocate_bit bitmap bits =
    let byte_size = (bits + 7) / 8 in
    let i = find_byte byte_size bitmap 0 in
    if i == byte_size then full else elim (find_bit 8 (drop i bitmap) 0) [
      | none ↦ stuck
      | some j ↦
          let bit = (i * 8 + j) % u32_mod in
          if ltb bits bit then full else allocated bit (set_bit bitmap bit)
    ]

unfoldable pub free_bit : List ℕ → ℕ → ℕ → Bool × List ℕ
free_bit bitmap bits bit = if leb bit bits then (true, clear_bit bitmap bit) else (false, bitmap)

-- The address, if there is one; the outer `none` is a bit loop that does not end.
unfoldable pub ippool_get_ip : Ippool → Option (Option ℕ × Ippool)
ippool_get_ip ippool = elim (allocate_bit ippool.pool ippool.hosts) [
  | full ↦ Option.some (Option.none, ippool)
  | stuck ↦ Option.none
  | allocated bit pool ↦
      Option.some (Option.some ((ippool.hostmin + bit) % u32_mod), record ippool { pool = pool })
]

-- An `int` as a `size_t`.
unfoldable pub size_of_int : ℕ → ℕ
size_of_int d = if ltb d (u32_mod / 2) then d else d + u64_mod - u32_mod

-- `none` is an address that `inet_aton` refuses.
unfoldable pub ippool_release_ip : Ippool → Option ℕ → Ippool
ippool_release_ip ippool none = ippool
ippool_release_ip ippool (some addr) =
    let bit = size_of_int ((addr + u32_mod - ippool.hostmin) % u32_mod) in
    record ippool { pool = (free_bit ippool.pool ippool.hosts bit).1 }
