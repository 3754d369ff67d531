-- ===== src/Bitpool/Laws.antt =====
-- What the pool promises: the lowest free identifier, all others unchanged, and its way back.
use netvirt.Prelude.{
  ℕ, zero, suc, ◌+◌, ◌*◌, ◌/◌, ◌%◌, ◌≤◌, ◌<◌, ◌≡◌, refl, List, arith, ◌⊎◌, ◌↔◌, inl, inr, ◌==◌, ltb,
  if◌then◌else◌, length, Bool-cases, pos, minus_one, ◌&&◌, replicate, length-replicate,
  get_or-replicate,
}
use netvirt.Prelude.Bytes.{u32_mod, byte_bit_zero}
use netvirt.Bitmap.{get_bit, set_bit, clear_bit, IsBytes, IsFirstClear, full, allocated}
use netvirt.Bitmap.Bits.{
  get_bit-set_bit, get_bit-clear_bit, clear_bit-set_bit, set_bit-IsBytes, clear_bit-IsBytes,
  length-set_bit, length-clear_bit,
}
use netvirt.Bitmap.Search.{byte_index, search}
use netvirt.Bitpool.{bitpool_allocate_bit, bitpool_release_bit, bitpool_new}

-- A pool of `nbits` identifiers: its bytes are bytes, and they are enough.
pub record IsPool (nbits : ℕ) (bitpool : List ℕ) : Type 0 where
  pub bytes : IsBytes bitpool
  pub room : nbits ≤ 8 * length bitpool
  pub word : nbits < u32_mod

module _ {nbits : ℕ} {bitpool : List ℕ} (pool : IsPool nbits bitpool) where
  pub allocate_cases :
      ((bitpool_allocate_bit bitpool nbits ≡ full)
        × ((k : ℕ) → k < 8 * (nbits / 8) → get_bit bitpool k ≡ 1))
      ⊎ ((bit : ℕ) × (bitpool_allocate_bit bitpool nbits ≡ allocated bit (set_bit bitpool bit))
          × (bit < 8 * (nbits / 8))
          × IsFirstClear bitpool bit)
  unfolding bitpool_allocate_bit byte_index
  allocate_cases = elim (search (nbits / 8) bitpool pool.bytes) [
    | inl (e, all) ↦ inl (rw e (ground arith), all)
    | inr (m, inside, lt, got, first) ↦
        let i = byte_index (nbits / 8) bitpool in
        let w : (i * 8 + m) % u32_mod ≡ i * 8 + m = omega arith in
        inr (i * 8 + m, ground arith, omega arith, first)
  ]

  pub set_bit-IsPool : (bit : ℕ) → IsPool nbits (set_bit bitpool bit)
  set_bit-IsPool bit = record {
    bytes = set_bit-IsBytes bitpool pool.bytes bit;
    room = omega (arith, length-set_bit bitpool bit);
    word = pool.word;
  }

  clear_bit-IsPool : (bit : ℕ) → IsPool nbits (clear_bit bitpool bit)
  clear_bit-IsPool bit = record {
    bytes = clear_bit-IsBytes bitpool pool.bytes bit;
    room = omega (arith, length-clear_bit bitpool bit);
    word = pool.word;
  }

-- `bit` was the lowest free identifier, and only it has changed hands.
pub record IsAllocation (nbits : ℕ) (before after : List ℕ) (bit : ℕ) : Type 0 where
  pub inside : bit < nbits
  pub first : IsFirstClear before bit
  pub only : (k : ℕ) → get_bit after k ≡ (if bit == k then 1 else get_bit before k)
  pub pool : IsPool nbits after

module _ {nbits : ℕ} {bitpool : List ℕ} (pool : IsPool nbits bitpool) where
  set_bit-IsAllocation :
      (bit : ℕ)
      → bit < 8 * (nbits / 8)
      → IsFirstClear bitpool bit
      → IsAllocation nbits bitpool (set_bit bitpool bit) bit
  set_bit-IsAllocation bit lt first = record {
    inside = omega arith;
    first = first;
    only = get_bit-set_bit bitpool pool.bytes bit (omega (arith, pool.room));
    pool = set_bit-IsPool pool bit;
  }

  -- An allocation from a well-formed pool always ends. It answers "full" when every identifier of
  -- the whole bytes is in use; otherwise it hands out the lowest free identifier, which is below
  -- `nbits`, marks it, leaves every other one as it was, and the pool stays well formed.
  pub allocate-IsAllocation :
      ((bitpool_allocate_bit bitpool nbits ≡ full)
        × ((k : ℕ) → k < 8 * (nbits / 8) → get_bit bitpool k ≡ 1))
      ⊎ ((bit : ℕ) × (after : List ℕ) × (bitpool_allocate_bit bitpool nbits ≡ allocated bit after)
          × IsAllocation nbits bitpool after bit)
  allocate-IsAllocation = elim (allocate_cases pool) [
    | inl none_left ↦ inl none_left
    | inr (bit, got, lt, first) ↦
        inr (bit, set_bit bitpool bit, got, set_bit-IsAllocation bit lt first)
  ]

  -- A well-formed pool answers "full" exactly when every identifier of its whole bytes is in use.
  pub allocate-full_iff :
      (bitpool_allocate_bit bitpool nbits ≡ full)
      ↔ ((k : ℕ) → k < 8 * (nbits / 8) → get_bit bitpool k ≡ 1)
  allocate-full_iff = elim (allocate_cases pool) [
    | inl (e, all) ↦ (λ _. all, λ _. e)
    | inr (bit, got, lt, first) ↦ (λ e. cc, λ all. absurd (omega (arith, all bit lt, first.clear)))
  ]

  -- Releasing the identifier that an allocation from a well-formed pool handed out succeeds and
  -- restores the pool, byte for byte.
  pub release-allocate :
      (bit : ℕ) (after : List ℕ)
      → bitpool_allocate_bit bitpool nbits ≡ allocated bit after
      → bitpool_release_bit after nbits bit ≡ (pos 0, bitpool)
  unfolding bitpool_release_bit
  release-allocate bit after e = elim (allocate_cases pool) [
    | inl (e', all) ↦ cc
    | inr (bit', got, lt, first) ↦
        let same : bit' ≡ bit = ground arith in
        let here : after ≡ set_bit bitpool bit' = ground arith in
        rw (here, ← same)
          (ground (
            arith,
            clear_bit-set_bit bitpool pool.bytes bit' (omega (arith, pool.room)) first.clear,
          ))
  ]

  -- A release in a well-formed pool of an identifier below `nbits` returns 0 and clears that
  -- identifier only; any other returns -1 and changes no identifier. The pool stays well formed.
  pub release-get_bit :
      (bit : ℕ)
      → let (code, after) = bitpool_release_bit bitpool nbits bit in
        (code ≡ (if ltb bit nbits then pos 0 else minus_one))
        × ((k : ℕ) → get_bit after k ≡ (if ltb bit nbits && bit == k then 0 else get_bit bitpool k))
        × IsPool nbits after
  unfolding bitpool_release_bit
  release-get_bit bit = elim (Bool-cases (ltb bit nbits)) [
    | inl inside ↦
        let b : bit / 8 < length bitpool = ground (arith, pool.room) in
        rw inside
          ((refl, λ k. get_bit-clear_bit bitpool pool.bytes bit b k, clear_bit-IsPool pool bit))
    | inr outside ↦ rw outside ((refl, λ k. refl, pool))
  ]

replicate-IsBytes : (n : ℕ) → IsBytes (replicate n 0)
replicate-IsBytes zero = tt
replicate-IsBytes (suc n) = (omega arith, replicate-IsBytes n)

-- A new pool of less than 2^32 identifiers is well formed and has every identifier free.
pub bitpool_new-IsPool :
    (nbits : ℕ)
    → nbits < u32_mod
    → IsPool nbits (bitpool_new nbits) × ((k : ℕ) → get_bit (bitpool_new nbits) k ≡ 0)
unfolding bitpool_new get_bit
bitpool_new-IsPool nbits h = (
  record {
    bytes = replicate-IsBytes ((nbits + 7) / 8);
    room = omega (arith, length-replicate {A = ℕ} ((nbits + 7) / 8) 0);
    word = h;
  },
  λ k. rw get_or-replicate (byte_bit_zero (k % 8) (omega arith)),
)
