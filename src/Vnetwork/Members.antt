-- ===== src/Vnetwork/Members.antt =====
-- The members of a virtual network.
use netvirt.Prelude.{ℕ, ◌≡◌, ◌≢◌, true, false, List, ◌∷◌, arith, ◌==◌, if◌then◌else◌}
use netvirt.Links.{null, mem, distinct, erase, Chain, Chain-same, prev-mem, ne_of_mem}
use netvirt.Links.Unlink.{
  next_without, prev_without, Chain-erase, Chain-cons, neighbour_ne, distinct-erase, not-mem-erase,
}
use netvirt.Session.{Heap, set_next, set_prev}
use netvirt.Vnetwork.{Vnetwork, link_session, unlink_session}

-- The session list of the network is `xs`.
pub record Lists {Table : Type 0} (h : Heap) (vnet : Vnetwork Table) (xs : List ℕ) : Type 0 where
  pub chain : Chain (λ p. (h p).next) (λ p. (h p).prev) null vnet.session_list xs
  pub apart : distinct xs ≡ true
  pub no_null : mem null xs ≡ false

module _ {Table : Type 0} (h : Heap) (vnet : Vnetwork Table) (session : ℕ) where
  -- The links of the heap after a session has been taken out.
  unlink_fields :
      (p : ℕ)
      → session ≢ null
      → (h session).next ≢ session
      → (h session).prev ≢ session
      → (((unlink_session h vnet session).0 p).next
          ≡ next_without (λ p. (h p).next) (λ p. (h p).prev) session p)
        × (((unlink_session h vnet session).0 p).prev
            ≡ prev_without (λ p. (h p).next) (λ p. (h p).prev) session p)
  unfolding unlink_session set_next set_prev
  unlink_fields p nn a b = (ground arith, ground arith)

  unlink_head :
      (unlink_session h vnet session).1.session_list
      ≡ (if (h session).prev == null then (h session).next else vnet.session_list)
  unfolding unlink_session
  unlink_head = ground arith

  -- The links after a session has been put in front.
  link_fields :
      (a : ℕ)
      → session ≢ null
      → (h session).prev ≡ null
      → a ≢ null
      → (((link_session h vnet session).0 a).next
          ≡ (if a == session then vnet.session_list else (h a).next))
        × (((link_session h vnet session).0 a).prev ≡ (
            if a == vnet.session_list then session else if a == session then null else (h a).prev))
  unfolding link_session set_next set_prev
  link_fields a nn back na = (ground arith, ground arith)

  link_head : (link_session h vnet session).1.session_list ≡ session
  unfolding link_session
  link_head = ground arith

module _ {Table : Type 0} {h : Heap} {vnet : Vnetwork Table} {xs : List ℕ} (l : Lists h vnet xs)
    (session : ℕ) where
  -- `vnetwork_del_session` takes a member out of the list and leaves the others in their order.
  pub unlink-Lists :
      mem session xs ≡ true
      → Lists (unlink_session h vnet session).0 (unlink_session h vnet session).1 (erase session xs)
  unlink-Lists m =
      let next : ℕ → ℕ = λ p. (h p).next in
      let prev : ℕ → ℕ = λ p. (h p).prev in
      let nn : session ≢ null = ne_of_mem session null xs m l.no_null in
      let (a, b) =
        neighbour_ne next prev null vnet.session_list session xs l.chain m l.apart l.no_null in
      let c = Chain-erase next prev null vnet.session_list session xs l.chain m l.apart l.no_null in
      let t = prev-mem next prev null vnet.session_list session xs l.chain m in
      let z = l.no_null in
      let head : (if vnet.session_list == session then next session else vnet.session_list)
          ≡ (unlink_session h vnet session).1.session_list =
        rw (unlink_head h vnet session) (ground (arith, ne_of_mem (h session).prev null xs)) in
      record {
        chain =
            Chain-same _ _ (λ p. ((unlink_session h vnet session).0 p).next)
              (λ p. ((unlink_session h vnet session).0 p).prev) null _ (erase session xs)
              (rw head at c) (λ p i. unlink_fields h vnet session p nn a b);
        apart = distinct-erase session xs l.apart;
        no_null = not-mem-erase null session xs l.no_null;
      }

  -- `vnetwork_add_session` puts a new session in front.
  pub link-Lists :
      session ≢ null
      → mem session xs ≡ false
      → (h session).prev ≡ null
      → Lists (link_session h vnet session).0 (link_session h vnet session).1 (session ∷ xs)
  link-Lists nn m back =
      let p = vnet.session_list in
      let c = Chain-cons (λ a. (h a).next) (λ a. (h a).prev) p session xs l.chain nn m l.apart in
      let z = l.no_null in
      let d = l.apart in
      record {
        chain = rw (link_head h vnet session) (
            Chain-same _ _ (λ a. ((link_session h vnet session).0 a).next)
              (λ a. ((link_session h vnet session).0 a).prev) null session (session ∷ xs) c
              (λ a i.
                link_fields h vnet session a nn back
                  (ne_of_mem a null (session ∷ xs) i (ground arith))));
        apart = ground arith;
        no_null = ground arith;
      }
