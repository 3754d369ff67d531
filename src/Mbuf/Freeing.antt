-- ===== src/Mbuf/Freeing.antt =====
-- The end of a queue.
use netvirt.Prelude.{ℕ, zero, suc, ◌≡◌, ◌≤◌, ◌==◌, refl, arith, true, List, [], ◌∷◌, length, some}
use netvirt.Links.{null}
use netvirt.Mbuf.{Mbuf, mbuf_del, mbuf_free}
use netvirt.Mbuf.Laws.{Queue}
use netvirt.Mbuf.Queues.{head-is, head-set, mbuf_del-Queue}

empty-null : (h : ℕ → Mbuf) (p : ℕ) → Queue h p [] → (p == null) ≡ true
unfolding Queue
empty-null h p e = ground arith

-- `mbuf_free` ends on every queue: with as many rounds as the queue has buffers, or more, it frees
-- each of them once, in their order, and none besides.
pub free_ends :
    (fuel : ℕ) (h : ℕ → Mbuf) (p : ℕ) (xs : List ℕ)
    → Queue h p xs
    → length xs ≤ fuel
    → (h' : ℕ → Mbuf) × (mbuf_free fuel h p ≡ some (h', xs))
unfolding mbuf_free
free_ends zero h p [] q enough = (h, rw (empty-null h p q) refl)
free_ends zero h p (x ∷ xs) q enough = absurd (omega (arith, enough))
free_ends (suc fuel) h p [] q enough = (h, rw (empty-null h p q) refl)
free_ends (suc fuel) h p (x ∷ xs) q enough =
    let e = head-is h p x xs q in
    let (code, rest) = mbuf_del-Queue h x x xs (rw e at q) in
    let (h', done) =
      free_ends fuel (mbuf_del h x x).1 (mbuf_del h x x).2 xs rest (omega (arith, enough)) in
    (h', rw (e, head-set h p x xs q, done) refl)
