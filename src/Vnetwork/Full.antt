-- ===== src/Vnetwork/Full.antt =====
-- A network without a free identifier.
use netvirt.Prelude.{ℕ, ◌+◌, ◌%◌, ◌<◌, ◌≡◌, ◌≢◌, true, false, List, ◌∷◌, arith, some, sym}
use netvirt.Prelude.Bytes.{u32_mod}
use netvirt.Bitmap.{get_bit, full}
use netvirt.Bitpool.{bitpool_allocate_bit}
use netvirt.Bitpool.Laws.{allocate-full_iff}
use netvirt.Links.{null, mem, ne_of_mem}
use netvirt.Session.{Heap, set_id}
use netvirt.Vnetwork.{Vnetwork, max_node, link_session, number_session, vnetwork_add_session}
use netvirt.Vnetwork.Numbers.{Numbered}
use netvirt.Vnetwork.Ids.{Members, link_id, link_pool, set_id_other, set_id_self}

number_full :
    {Table : Type 0} (h : Heap) (vnet : Vnetwork Table) (session : ℕ)
    → bitpool_allocate_bit vnet.bitpool max_node ≡ full
    → number_session h vnet session
      ≡ some (
        set_id h session (((h session).id + 1) % u32_mod),
        record vnet { active_node = (vnet.active_node + 1) % u32_mod },
      )
unfolding number_session
number_full h vnet session e = rw (e, number_session)

-- When every identifier is in use, adding a new session, whose identifier is 0, to a well-formed
-- network still succeeds, and gives the session the identifier of the member that holds 1: the new
-- session and the members are not all told apart by their identifiers any more.
pub add_session_full :
    {Table : Type 0} (h : Heap) (vnet : Vnetwork Table) (xs : List ℕ) (session t : ℕ)
    → Members h vnet xs
    → session ≢ null
    → mem session xs ≡ false
    → (h session).id ≡ 0
    → ((k : ℕ) → k < max_node → get_bit vnet.bitpool k ≡ 1)
    → mem t xs ≡ true
    → (h t).id ≡ 1
    → (h' : Heap) × (vnet' : Vnetwork Table) × (vnetwork_add_session h vnet session
        ≡ some (h', vnet'))
      × ((h' session).id ≡ (h' t).id)
      × (t ≢ session)
      × ¬ Numbered h' vnet'.bitpool (session ∷ xs)
unfolding vnetwork_add_session
add_session_full {Table} h vnet xs session t ms nn m fresh all i one =
    let hl = (link_session h vnet session).0 in
    let vl = (link_session h vnet session).1 in
    let vnet' : Vnetwork Table = record vl { active_node = (vl.active_node + 1) % u32_mod } in
    let h' : Heap = set_id hl session (((hl session).id + 1) % u32_mod) in
    let e = (allocate-full_iff ms.numbered.pool).1 (λ k l. all k l) in
    let ne : t ≢ session = ne_of_mem t session xs i m in
    let same : (h' session).id ≡ (h' t).id = ground (
      arith,
      set_id_self hl vl session (((hl session).id + 1) % u32_mod),
      set_id_other hl vl session (((hl session).id + 1) % u32_mod) t ne,
      link_id h vnet session t,
      link_id h vnet session session,
    ) in
    (
      h',
      vnet',
      number_full hl vl session (rw (link_pool h vnet session) e),
      same,
      ne,
      λ n. ne (n.unique t session (ground arith) (ground arith) (sym same)),
    )
