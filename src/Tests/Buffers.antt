-- ===== src/Tests/Buffers.antt =====
-- An empty queue, and one of the buffers 7 and 8.
use netvirt.Prelude.{ℕ, ◌≡◌, refl, ◌==◌, pos, [], ◌∷◌, if◌then◌else◌}
use netvirt.Mbuf.{Mbuf, mbuf_add, mbuf_del}
use netvirt.Mbuf.Laws.{Next, Queue}
use netvirt.Mbuf.{mbuf_free}
use netvirt.Mbuf.Freeing.{free_ends}
use netvirt.Prelude.{some, arith}
use netvirt.Mbuf.Queues.{first_in_first_out}

abbrev blank : ℕ → Mbuf
blank a = record { next = 0; prev = 0; count = 0 }

abbrev two : ℕ → Mbuf
two a =
    if a == 7
    then record { next = 8; prev = 8; count = 2 }
    else record { next = 0; prev = 7; count = 0 }

blank-Queue : Queue blank 0 []
unfolding Queue
blank-Queue = refl

two-Queue : Queue two 7 (7 ∷ 8 ∷ [])
unfolding Queue Next
two-Queue = ((refl, refl, (refl, refl, refl)), refl, refl)

first_in_first_out_example :
    Queue (mbuf_add blank 0 4).0 (mbuf_add blank 0 4).1 (4 ∷ [])
    × ((mbuf_del two 7 7).0 ≡ pos 0)
    × Queue (mbuf_del two 7 7).1 (mbuf_del two 7 7).2 (8 ∷ [])
first_in_first_out_example =
    first_in_first_out blank 0 4 7 [] (8 ∷ []) two 7 blank-Queue refl refl two-Queue

free_ends_example : (h' : ℕ → Mbuf) × (mbuf_free 2 two 7 ≡ some (h', 7 ∷ 8 ∷ []))
free_ends_example = free_ends 2 two 7 (7 ∷ 8 ∷ []) two-Queue (omega arith)
