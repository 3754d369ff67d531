-- ===== src/Mbuf/Queues.antt =====
-- Adding a buffer to a queue and taking its first one out.
use netvirt.Prelude.{ℕ, ◌≡◌, refl, sym, ◌∙◌, arith, ◌==◌, pos, false, List, [], ◌∷◌, ◌++◌}
use netvirt.Links.{null, mem, update}
use netvirt.Mbuf.Steps.{del-code, del-next, del-head, del-prev}
use netvirt.Mbuf.{Mbuf, mbuf_add, mbuf_del}
use netvirt.Mbuf.Laws.{
  Next, Queue, Next-same, Next-append, last-append, distinct-append, added-next, added-end,
  added-back,
}

module _ (h : ℕ → Mbuf) (p m : ℕ) (empty : p ≡ null) (up : (m == null) ≡ false) where
  mbuf_alone :
      Next (mbuf_add h p m).0 (mbuf_add h p m).1 (m ∷ []) × (((mbuf_add h p m).0 m).prev ≡ m)
  unfolding mbuf_add update Next
  mbuf_alone = rw empty ((refl, up, ground arith), ground arith)

alone-Queue :
    (h : ℕ → Mbuf) (p m : ℕ)
    → Queue h p []
    → (m == null) ≡ false
    → Queue (mbuf_add h p m).0 (mbuf_add h p m).1 (m ∷ [])
unfolding Queue
alone-Queue h p m q up = ((mbuf_alone h p m q up).0, (mbuf_alone h p m q up).1, ground arith)

added-head : (h : ℕ → Mbuf) (x m : ℕ) → (x == null) ≡ false → (mbuf_add h x m).1 ≡ x
unfolding mbuf_add
added-head h x m up = rw up refl

pub head-is : (h : ℕ → Mbuf) (p x : ℕ) (xs : List ℕ) → Queue h p (x ∷ xs) → p ≡ x
unfolding Queue Next
head-is h p x xs ((e, nn, c), back, d) = e

added :
    (h : ℕ → Mbuf) (x m : ℕ) (xs : List ℕ)
    → Queue h x (x ∷ xs)
    → mem m (x ∷ xs) ≡ false
    → (m == null) ≡ false
    → Queue (mbuf_add h x m).0 x ((x ∷ xs) ++ (m ∷ []))
unfolding Queue Next
added h x m xs ((e, nn, c), back, d) new up = (
  Next-append h (mbuf_add h x m).0 x x m xs (refl, nn, c) d new up
      (added-next h x m xs back d new nn) (added-end h x m xs back d new nn),
  added-back h x m xs back d new nn ∙ sym (last-append x m xs),
  distinct-append m (x ∷ xs) d new,
)

pub head-set : (h : ℕ → Mbuf) (p x : ℕ) (xs : List ℕ) → Queue h p (x ∷ xs) → (x == null) ≡ false
unfolding Queue Next
head-set h p x xs ((e, nn, c), back, d) = nn

-- A buffer that is not NULL and not in the queue is put behind the others.
mbuf_add-Queue :
    (h : ℕ → Mbuf) (p m : ℕ) (xs : List ℕ)
    → Queue h p xs
    → mem m xs ≡ false
    → (m == null) ≡ false
    → Queue (mbuf_add h p m).0 (mbuf_add h p m).1 (xs ++ (m ∷ []))
mbuf_add-Queue h p m [] q new up = alone-Queue h p m q up
mbuf_add-Queue h p m (x ∷ xs) q new up =
    let e = head-is h p x xs q in
    rw (e, added-head h x m (head-set h p x xs q)) (added h x m xs (rw e at q) new up)

rest-Queue :
    (h : ℕ → Mbuf) (x : ℕ) (xs : List ℕ)
    → Queue h x (x ∷ xs)
    → Queue (mbuf_del h x x).1 (mbuf_del h x x).2 xs
unfolding Queue Next
rest-Queue h x [] ((e, nn, c), back, d) = del-head h x nn ∙ c
rest-Queue h x (y ∷ ys) ((e, nn, (link, more, c)), back, d) = (
  (
    del-head h x nn ∙ link,
    more,
    Next-same h (mbuf_del h x x).1 ((mbuf_del h x x).1 y).next ys (rw (del-next h x nn y) c)
        (del-next h x nn),
  ),
  del-prev h x nn y link more ∙ back,
  ground arith,
)

pub mbuf_del-Queue :
    (h : ℕ → Mbuf) (p x : ℕ) (xs : List ℕ)
    → Queue h p (x ∷ xs)
    → ((mbuf_del h p x).0 ≡ pos 0) × Queue (mbuf_del h p x).1 (mbuf_del h p x).2 xs
mbuf_del-Queue h p x xs q =
    let e = head-is h p x xs q in
    rw e (del-code h x (head-set h p x xs q), rest-Queue h x xs (rw e at q))

-- A queue of buffers is first in, first out. A buffer that is not NULL and not in the queue is put
-- behind the others. Taking out the first of a queue succeeds and leaves the others in their order.
pub first_in_first_out :
    (h : ℕ → Mbuf) (p m x : ℕ) (xs ys : List ℕ) (h' : ℕ → Mbuf) (p' : ℕ)
    → Queue h p xs
    → mem m xs ≡ false
    → (m == null) ≡ false
    → Queue h' p' (x ∷ ys)
    → Queue (mbuf_add h p m).0 (mbuf_add h p m).1 (xs ++ (m ∷ []))
      × ((mbuf_del h' p' x).0 ≡ pos 0)
      × Queue (mbuf_del h' p' x).1 (mbuf_del h' p' x).2 ys
first_in_first_out h p m x xs ys h' p' q new up q' =
    let (code, rest) = mbuf_del-Queue h' p' x ys q' in
    (mbuf_add-Queue h p m xs q new up, code, rest)
