-- ===== src/Ippool/Laws.antt =====
-- Addresses handed out and taken back.
use netvirt.Prelude.{
  ℕ, ◌+◌, ◌*◌, ◌/◌, ◌%◌, ◌-◌, ◌≤◌, ◌<◌, ◌≡◌, refl, ap, sym, ◌∙◌, ltb, leb, true, Option, none, some,
  length, arith, ◌⊎◌, inl, inr, Bool-cases,
}
use netvirt.Prelude.Bytes.{u32_mod}
use netvirt.Bitmap.{get_bit, set_bit, IsBytes, IsFirstClear, full, allocated}
use netvirt.Bitmap.Bits.{clear_bit-set_bit, set_bit-IsBytes, length-set_bit}
use netvirt.Bitmap.Search.{byte_index, search}
use netvirt.Ippool.{Ippool, allocate_bit, free_bit, ippool_get_ip, ippool_release_ip, size_of_int}

-- The bit map covers every address, and the addresses are those of a network.
pub record IsIppool (p : Ippool) : Type 0 where
  pub bytes : IsBytes p.pool
  pub size : length p.pool ≡ (p.hosts + 7) / 8
  pub room : p.hosts < 8 * length p.pool
  pub small : p.hosts + 8 < u32_mod / 2
  pub last : p.hostmin + p.hosts < u32_mod

-- The address of a bit that was the first clear one, now set.
pub record IsLease (p : Ippool) (bit : ℕ) : Type 0 where
  pub inside : bit ≤ p.hosts
  pub first : IsFirstClear p.pool bit
  pub valid : IsIppool (record p { pool = set_bit p.pool bit })

give : Ippool → Option (Option ℕ × Ippool) → Ippool
give p (some (ip, q)) = ippool_release_ip q ip
give p none = p

module _ (p : Ippool) (v : IsIppool p) where
  set_bit-IsIppool : (bit : ℕ) → IsIppool (record p { pool = set_bit p.pool bit })
  set_bit-IsIppool bit = record {
    bytes = set_bit-IsBytes p.pool v.bytes bit;
    size = length-set_bit p.pool bit ∙ v.size;
    room = omega (arith, length-set_bit p.pool bit, v.room);
    small = v.small;
    last = v.last;
  }

  allocate_bit_cases :
      ((allocate_bit p.pool p.hosts ≡ full) × ((k : ℕ) → k ≤ p.hosts → get_bit p.pool k ≡ 1))
      ⊎ ((bit : ℕ) × (allocate_bit p.pool p.hosts ≡ allocated bit (set_bit p.pool bit))
          × IsLease p bit)
  unfolding allocate_bit byte_index
  allocate_bit_cases = elim (search ((p.hosts + 7) / 8) p.pool v.bytes) [
    | inl (e, all) ↦ inl (rw e (ground arith), λ k l. all k (omega (arith, v.size, v.room)))
    | inr (m, inside, lt, got, first) ↦
        let i = byte_index ((p.hosts + 7) / 8) p.pool in
        let w : (i * 8 + m) % u32_mod ≡ i * 8 + m = omega (arith, v.small) in
        elim (Bool-cases (ltb p.hosts (i * 8 + m))) [
          | inl past ↦ inl (ground arith, λ k l. first.before k (ground arith))
          | inr within ↦ inr (
            i * 8 + m,
            ground arith,
            record { inside = ground arith; first = first; valid = set_bit-IsIppool (i * 8 + m) },
          )
        ]
  ]

  -- Asking a well-formed pool for an address always ends. Either there is none, since all are in
  -- use, and the pool is as it was; or the answer is the lowest address that is free, of the
  -- `hosts` + 1 from `hostmin` on, which is then in use, and the pool stays well formed.
  pub get_ip_cases :
      ((ippool_get_ip p ≡ some (none, p)) × ((k : ℕ) → k ≤ p.hosts → get_bit p.pool k ≡ 1))
      ⊎ ((bit : ℕ) × (ippool_get_ip p
            ≡ some (some (p.hostmin + bit), record p { pool = set_bit p.pool bit }))
          × IsLease p bit)
  unfolding ippool_get_ip
  get_ip_cases = elim allocate_bit_cases [
    | inl (e, all) ↦ inl (rw (e, ippool_get_ip) refl, all)
    | inr (bit, e, lease) ↦
        let w : (p.hostmin + bit) % u32_mod ≡ p.hostmin + bit =
          omega (arith, v.last, lease.inside) in
        inr (bit, rw (e, ippool_get_ip, w) refl, lease)
  ]

  give_back :
      (bit : ℕ)
      → IsLease p bit
      → ippool_release_ip (record p { pool = set_bit p.pool bit }) (some (p.hostmin + bit)) ≡ p
  unfolding ippool_release_ip free_bit size_of_int
  give_back bit lease =
      let d : (p.hostmin + bit + u32_mod - p.hostmin) % u32_mod ≡ bit =
        omega (arith, v.last, lease.inside) in
      let t : ltb bit (u32_mod / 2) ≡ true = ground (arith, v.small, lease.inside) in
      let i : leb bit p.hosts ≡ true = ground (arith, lease.inside) in
      rw
        (
          d,
          t,
          i,
          clear_bit-set_bit p.pool v.bytes bit (omega (arith, v.room, lease.inside))
              lease.first.clear,
        )
        refl

  -- Giving back the address that a well-formed pool has just handed out restores the pool.
  pub release_ip-get_ip :
      (ip : ℕ) (q : Ippool)
      → ippool_get_ip p ≡ some (some ip, q)
      → ippool_release_ip q (some ip) ≡ p
  unfolding give
  release_ip-get_ip ip q e = elim get_ip_cases [
    | inl (e', all) ↦ absurd (ground arith)
    | inr (bit, e', lease) ↦ sym (ap (give p) e) ∙ ap (give p) e' ∙ give_back bit lease
  ]
