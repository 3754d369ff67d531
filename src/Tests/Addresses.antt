-- ===== src/Tests/Addresses.antt =====
-- A pool of addresses for a network of 16 with two bytes of bits.
use netvirt.Prelude.{ℕ, ◌+◌, ◌≤◌, ◌≡◌, refl, [], ◌∷◌, arith, some, none, ◌⊎◌}
use netvirt.Prelude.Bytes.{byte_bit, byte_set}
use netvirt.Bitmap.{get_bit, set_bit, find_byte, find_bit}
use netvirt.Ippool.{Ippool, allocate_bit, ippool_get_ip, ippool_release_ip}
use netvirt.Ippool.Laws.{IsIppool, IsLease, get_ip_cases, release_ip-get_ip}

abbrev some_used : Ippool
some_used = record {
  hosts = 13;
  hostmin = 0x2c800101;
  hostmax = 0x2c80010e;
  address = 0x2c800100;
  netmask = 0xfffffff0;
  pool = 0xff ∷ 5 ∷ [];
}

some_used-IsIppool : IsIppool some_used
some_used-IsIppool = record {
  bytes = (omega arith, (omega arith, tt));
  size = refl;
  room = omega arith;
  small = omega arith;
  last = omega arith;
}

leased : ippool_get_ip some_used ≡ some (some 0x2c80010a, record some_used { pool = 0xff ∷ 7 ∷ [] })
unfolding ippool_get_ip allocate_bit find_byte find_bit get_bit set_bit byte_bit byte_set
leased = refl

get_ip_cases_example :
    ((ippool_get_ip some_used ≡ some (none, some_used))
      × ((k : ℕ) → k ≤ 13 → get_bit some_used.pool k ≡ 1))
    ⊎ ((bit : ℕ) × (ippool_get_ip some_used
          ≡ some (some (0x2c800101 + bit), record some_used { pool = set_bit some_used.pool bit }))
        × IsLease some_used bit)
get_ip_cases_example = get_ip_cases some_used some_used-IsIppool

release_ip-get_ip_example :
    ippool_release_ip (record some_used { pool = 0xff ∷ 7 ∷ [] }) (some 0x2c80010a) ≡ some_used
release_ip-get_ip_example =
    release_ip-get_ip some_used some_used-IsIppool 0x2c80010a
      (record some_used { pool = 0xff ∷ 7 ∷ [] }) leased
