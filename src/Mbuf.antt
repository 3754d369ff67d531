-- ===== src/Mbuf.antt =====
-- libnvcore/src/mbuf.c: queues of messages. A buffer stands at an address, with its two links and
-- the count that the head of a queue keeps; `size_t` has 64 bits. What a buffer holds, and how that
-- is freed, is left out: the freed buffer is the one that `mbuf_del` was given.
pub mod Laws
pub mod Steps
pub mod Queues
pub mod Freeing
use netvirt.Prelude.{
  ℕ, zero, suc, Option, none, some, List, [], ◌∷◌, ◌==◌, ◌&&◌, ◌||◌, ◌+◌, ◌-◌, ◌%◌, ◌^◌, ℤ, pos,
  minus_one, Bool, true, false, if◌then◌else◌,
}
use netvirt.Links.{null, update}

pub record Mbuf : Type 0 where
  pub next : ℕ
  pub prev : ℕ
  pub count : ℕ

abbrev pub size_mod : ℕ
size_mod = 2 ^ 64

-- An `int`: the low 32 bits.
unfoldable pub mbuf_count : (ℕ → Mbuf) → (mbuf_head : ℕ) → ℕ
mbuf_count h mbuf_head = if mbuf_head == null then 0 else (h mbuf_head).count % 2 ^ 32

-- The buffers and the head afterwards; it always returns 0.
unfoldable pub mbuf_add : (ℕ → Mbuf) → (mbuf_head mbuf : ℕ) → (ℕ → Mbuf) × ℕ
unfolding update
mbuf_add h mbuf_head mbuf =
    let alone = update h mbuf (record { next = null; prev = mbuf; count = 1 }) in
    let h1 = update h mbuf (record (h mbuf) { next = null; prev = (h mbuf_head).prev }) in
    let last = (h1 mbuf_head).prev in
    let h2 = update h1 last (record (h1 last) { next = mbuf }) in
    let h3 =
      update h2 mbuf_head
        (record (h2 mbuf_head) { prev = mbuf; count = ((h2 mbuf_head).count + 1) % size_mod }) in
    if mbuf_head == null then (alone, mbuf) else (h3, mbuf_head)

-- The steps of `mbuf_del`, in their order.
unfoldable pub forget_tail : (ℕ → Mbuf) → (mbuf_head mbuf : ℕ) → (ℕ → Mbuf)
unfolding update
forget_tail h mbuf_head mbuf =
    if mbuf == (h mbuf_head).prev
    then update h mbuf_head (record (h mbuf_head) { prev = (h mbuf).prev })
    else h

unfoldable pub skip_from_before : (ℕ → Mbuf) → (mbuf_head mbuf : ℕ) → (ℕ → Mbuf)
unfolding update
skip_from_before h mbuf_head mbuf =
    let before = (h mbuf).prev in
    if mbuf == mbuf_head then h else update h before (record (h before) { next = (h mbuf).next })

unfoldable pub skip_from_behind : (ℕ → Mbuf) → (mbuf : ℕ) → (ℕ → Mbuf)
unfolding update
skip_from_behind h mbuf =
    let behind = (h mbuf).next in
    if behind == null then h else update h behind (record (h behind) { prev = (h mbuf).prev })

unfoldable pub head_after : (ℕ → Mbuf) → (mbuf_head mbuf : ℕ) → ℕ
head_after h mbuf_head mbuf =
    let head = if mbuf == mbuf_head then (h mbuf).next else mbuf_head in
    if mbuf == head && (h mbuf).next == null then null else head

unfoldable pub count_down : (ℕ → Mbuf) → (mbuf_head : ℕ) → (ℕ → Mbuf)
unfolding update
count_down h mbuf_head =
    if mbuf_head == null
    then h
    else update h mbuf_head
        (record (h mbuf_head) { count = ((h mbuf_head).count + size_mod - 1) % size_mod })

-- What it returns, and the buffers and the head afterwards.
unfoldable pub mbuf_del : (ℕ → Mbuf) → (mbuf_head mbuf : ℕ) → ℤ × (ℕ → Mbuf) × ℕ
mbuf_del h mbuf_head mbuf =
    let h1 = forget_tail h mbuf_head mbuf in
    let h2 = skip_from_before h1 mbuf_head mbuf in
    let h3 = skip_from_behind h2 mbuf in
    let head = head_after h3 mbuf_head mbuf in
    if mbuf_head == null || mbuf == null
    then (minus_one, h, mbuf_head)
    else (pos 0, count_down h3 head, head)

abbrev pub freed_first : ℕ → Option ((ℕ → Mbuf) × List ℕ) → Option ((ℕ → Mbuf) × List ℕ)
freed_first mbuf none = none
freed_first mbuf (some (h, freed)) = some (h, mbuf ∷ freed)

-- The buffers afterwards, and those that it frees, in their order; the head is NULL. `none` is a loop
-- that outlives its fuel.
unfoldable pub mbuf_free : (fuel : ℕ) → (ℕ → Mbuf) → (mbuf : ℕ) → Option ((ℕ → Mbuf) × List ℕ)
mbuf_free zero h mbuf = if mbuf == null then some (h, []) else none
mbuf_free (suc fuel) h mbuf =
    let rest = mbuf_free fuel (mbuf_del h mbuf mbuf).1 (mbuf_del h mbuf mbuf).2 in
    if mbuf == null then some (h, []) else freed_first mbuf rest
