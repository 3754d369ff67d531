-- ===== src/Vnetwork/Ids.antt =====
-- The members of a network: its list and their identifiers together.
use netvirt.Prelude.{
  ℕ, ◌+◌, ◌-◌, ◌%◌, ◌<◌, ◌≡◌, ◌≢◌, true, false, List, ◌∷◌, arith, inl, inr, some, ◌∙◌, ap,
}
use netvirt.Prelude.Bytes.{u32_mod}
use netvirt.Bitmap.{get_bit, allocated}
use netvirt.Bitpool.{bitpool_allocate_bit}
use netvirt.Bitpool.Laws.{allocate-IsAllocation, release-get_bit}
use netvirt.Links.{null, mem, erase, Chain-same}
use netvirt.Session.{Heap, set_id, set_next, set_prev}
use netvirt.Vnetwork.{
  Vnetwork, max_node, link_session, number_session, unlink_session, vnetwork_add_session,
  vnetwork_del_session,
}
use netvirt.Vnetwork.Members.{Lists, link-Lists, unlink-Lists}
use netvirt.Vnetwork.Numbers.{Numbered, Numbered-cons, Numbered-same, Numbered-erase}

pub record Members {Table : Type 0} (h : Heap) (vnet : Vnetwork Table) (xs : List ℕ) : Type 0 where
  pub lists : Lists h vnet xs
  pub numbered : Numbered h vnet.bitpool xs

module _ {Table : Type 0} (h : Heap) (vnet : Vnetwork Table) (session : ℕ) where
  pub link_id : (p : ℕ) → ((link_session h vnet session).0 p).id ≡ (h p).id
  unfolding link_session set_next set_prev
  link_id p = ground arith

  unlink_id : (p : ℕ) → ((unlink_session h vnet session).0 p).id ≡ (h p).id
  unfolding unlink_session set_next set_prev
  unlink_id p = ground arith

  pub link_pool : (link_session h vnet session).1.bitpool ≡ vnet.bitpool
  unfolding link_session
  link_pool = ground arith

  unlink_pool : (unlink_session h vnet session).1.bitpool ≡ vnet.bitpool
  unfolding unlink_session
  unlink_pool = ground arith

  link_active : (link_session h vnet session).1.active_node ≡ vnet.active_node
  unfolding link_session
  link_active = ground arith

  unlink_active : (unlink_session h vnet session).1.active_node ≡ vnet.active_node
  unfolding unlink_session
  unlink_active = ground arith

  pub set_id_other : (n p : ℕ) → p ≢ session → (set_id h session n p).id ≡ (h p).id
  unfolding set_id
  set_id_other n p ne = ground arith

  pub set_id_self : (n : ℕ) → (set_id h session n session).id ≡ n
  unfolding set_id
  set_id_self n = ground arith

  set_id-Lists : (n : ℕ) (xs : List ℕ) → Lists h vnet xs → Lists (set_id h session n) vnet xs
  unfolding set_id
  set_id-Lists n xs l = record {
    chain =
        Chain-same _ _ _ _ null vnet.session_list xs l.chain (λ a i. (ground arith, ground arith));
    apart = l.apart;
    no_null = l.no_null;
  }

number_allocated :
    {Table : Type 0} (h : Heap) (vnet : Vnetwork Table) (session bit : ℕ) (after : List ℕ)
    → bitpool_allocate_bit vnet.bitpool max_node ≡ allocated bit after
    → number_session h vnet session
      ≡ some (
        set_id h session ((bit + 1) % u32_mod),
        record vnet { active_node = (vnet.active_node + 1) % u32_mod; bitpool = after },
      )
unfolding number_session
number_allocated h vnet session bit after e = rw (e, number_session)

-- Adding a session that is in no list to a well-formed network, while some identifier is free,
-- always succeeds: the session becomes the first member, gets an identifier between 1 and 1024
-- that no other member holds, the others keep their places and identifiers, and one more node is
-- counted.
pub add_session-Members :
    {Table : Type 0} (h : Heap) (vnet : Vnetwork Table) (xs : List ℕ) (session k : ℕ)
    → Members h vnet xs
    → session ≢ null
    → mem session xs ≡ false
    → (h session).prev ≡ null
    → k < max_node
    → get_bit vnet.bitpool k ≡ 0
    → (h' : Heap) × (vnet' : Vnetwork Table) × (vnetwork_add_session h vnet session
        ≡ some (h', vnet'))
      × Members h' vnet' (session ∷ xs)
      × ((p : ℕ) → p ≢ session → (h' p).id ≡ (h p).id)
      × (vnet'.active_node ≡ (vnet.active_node + 1) % u32_mod)
unfolding vnetwork_add_session
add_session-Members {Table} h vnet xs session k ms nn m back lt free =
    elim (allocate-IsAllocation ms.numbered.pool) [
      | inl (e, all) ↦ absurd (omega (arith, all k (omega arith)))
      | inr (bit, after, e, a) ↦
          let hl = (link_session h vnet session).0 in
          let vl = (link_session h vnet session).1 in
          let vnet' : Vnetwork Table = record vl {
            active_node = (vl.active_node + 1) % u32_mod;
            bitpool = after;
          } in
          let w : (bit + 1) % u32_mod ≡ bit + 1 = omega (arith, a.inside) in
          let ll =
            set_id-Lists hl vl session (bit + 1) (session ∷ xs)
              (link-Lists ms.lists session nn m back) in
          (
            set_id hl session (bit + 1),
            vnet',
            number_allocated hl vl session bit after (rw (link_pool h vnet session) e)
                ∙ ap (λ n. some (set_id hl session n, vnet')) w,
            record {
              lists = record { chain = ll.chain; apart = ll.apart; no_null = ll.no_null };
              numbered =
                  Numbered-cons hl vnet.bitpool after xs session bit
                    (Numbered-same h hl vnet.bitpool xs (link_id h vnet session) ms.numbered) m a;
            },
            λ p ne. set_id_other hl vl session (bit + 1) p ne ∙ link_id h vnet session p,
            rw (link_active h vnet session),
          )
    ]

-- Deleting a member of a well-formed network takes it out of the list, leaves the others in their
-- order with their identifiers, frees its identifier, and counts one node less.
pub del_session-Members :
    {Table : Type 0} (h : Heap) (vnet : Vnetwork Table) (xs : List ℕ) (session : ℕ)
    → Members h vnet xs
    → mem session xs ≡ true
    → let (h', vnet') = vnetwork_del_session h vnet session in
      Members h' vnet' (erase session xs)
      × (get_bit vnet'.bitpool ((h session).id - 1) ≡ 0)
      × ((p : ℕ) → (h' p).id ≡ (h p).id)
      × (vnet'.active_node ≡ (vnet.active_node + u32_mod - 1) % u32_mod)
unfolding vnetwork_del_session
del_session-Members h vnet xs session ms m =
    let hu = (unlink_session h vnet session).0 in
    let l = unlink-Lists ms.lists session m in
    let low = ms.numbered.low session m in
    let high = ms.numbered.high session m in
    let i : ((hu session).id + u32_mod - 1) % u32_mod ≡ (h session).id - 1 =
      omega (arith, unlink_id h vnet session session) in
    let n = Numbered-erase h vnet.bitpool xs session ms.numbered m ms.lists.apart in
    let (_, bits, pool) = release-get_bit ms.numbered.pool ((h session).id - 1) in
    (
      record {
        lists = record { chain = l.chain; apart = l.apart; no_null = l.no_null };
        numbered =
            rw (i, unlink_pool h vnet session)
              (Numbered-same h hu _ (erase session xs) (unlink_id h vnet session) n);
      },
      rw (i, unlink_pool h vnet session) (ground (arith, bits ((h session).id - 1))),
      unlink_id h vnet session,
      rw (unlink_active h vnet session),
    )
