-- ===== src/Vnetwork/Numbers.antt =====
-- Which member holds which identifier, and that no two hold the same.
use netvirt.Prelude.{ℕ, ◌+◌, ◌-◌, ◌≤◌, ◌≡◌, true, false, List, ◌∷◌, arith}
use netvirt.Bitmap.{get_bit}
use netvirt.Bitpool.{bitpool_release_bit}
use netvirt.Bitpool.Laws.{IsPool, IsAllocation, release-get_bit}
use netvirt.Links.{mem, distinct, erase}
use netvirt.Links.Unlink.{mem-erase}
use netvirt.Session.{Heap, set_id}
use netvirt.Vnetwork.{max_node}

-- Every member holds an identifier between 1 and 1024 whose bit is set, and no other member's.
pub record Numbered (h : Heap) (bitpool : List ℕ) (xs : List ℕ) : Type 0 where
  pub pool : IsPool max_node bitpool
  pub low : (s : ℕ) → mem s xs ≡ true → 1 ≤ (h s).id
  pub high : (s : ℕ) → mem s xs ≡ true → (h s).id ≤ max_node
  pub held : (s : ℕ) → mem s xs ≡ true → get_bit bitpool ((h s).id - 1) ≡ 1
  pub unique : (s t : ℕ) → mem s xs ≡ true → mem t xs ≡ true → (h s).id ≡ (h t).id → s ≡ t

-- A new identifier for a new member.
pub Numbered-cons :
    (h : Heap) (before after : List ℕ) (xs : List ℕ) (session bit : ℕ)
    → Numbered h before xs
    → mem session xs ≡ false
    → IsAllocation max_node before after bit
    → Numbered (set_id h session (bit + 1)) after (session ∷ xs)
unfolding set_id
Numbered-cons h before after xs session bit n m a = record {
  pool = a.pool;
  low = λ s i. ground (arith, n.low s);
  high = λ s i. ground (arith, n.high s, a.inside);
  held = λ s i. ground (arith, n.held s, a.only ((h s).id - 1), a.only bit);
  unique = λ s t i j e.
      ground (arith, n.unique s t, n.held s, n.held t, n.low s, n.low t, a.first.clear);
}

-- Numbered looks at identifiers only.
pub Numbered-same :
    (h h' : Heap) (bitpool : List ℕ) (xs : List ℕ)
    → ((p : ℕ) → (h' p).id ≡ (h p).id)
    → Numbered h bitpool xs
    → Numbered h' bitpool xs
Numbered-same h h' bitpool xs same n = record {
  pool = n.pool;
  low = λ s i. rw (same s) (n.low s i);
  high = λ s i. rw (same s) (n.high s i);
  held = λ s i. rw (same s) (n.held s i);
  unique = λ s t i j e. n.unique s t i j (rw (same s, same t) at e);
}

-- Taking the identifier of a member back.
pub Numbered-erase :
    (h : Heap) (bitpool : List ℕ) (xs : List ℕ) (session : ℕ)
    → Numbered h bitpool xs
    → mem session xs ≡ true
    → distinct xs ≡ true
    → Numbered h (bitpool_release_bit bitpool max_node ((h session).id - 1)).1 (erase session xs)
Numbered-erase h bitpool xs session n m d =
    let (_, bits, pool) = release-get_bit n.pool ((h session).id - 1) in
    record {
      pool = pool;
      low = λ s i. ground (arith, mem-erase s session xs d, n.low s);
      high = λ s i. ground (arith, mem-erase s session xs d, n.high s);
      held = λ s i. ground (
        arith,
        mem-erase s session xs d,
        bits ((h s).id - 1),
        n.held s,
        n.low s,
        n.low session m,
        n.unique session s m,
      );
      unique = λ s t i j e.
          ground (arith, mem-erase s session xs d, mem-erase t session xs d, n.unique s t);
    }
