-- ===== src/Switch/Handlers/Joining.antt =====
-- The admission of a session as a whole: membership, identifier, answer.
use netvirt.Prelude.{
  ℕ, ◌<◌, ◌≡◌, ◌≢◌, refl, true, false, ◌==◌, List, [], ◌∷◌, ◌++◌, arith, Option, none, some, inl,
  inr, ◌⊎◌, ◌∙◌,
}
use mathlib.Core.List.{append_assoc}
use netvirt.Links.{null, mem, update}
use netvirt.Bitmap.{get_bit, Alloc, full, stuck, allocated}
use netvirt.Bitpool.{bitpool_allocate_bit}
use netvirt.Tables.{HashTable, ctable_find}
use netvirt.Session.{NodeInfo, Heap, authed, wait_stepup, set_next, set_prev, set_id}
use netvirt.Vnetwork.{Vnetwork, max_node, link_session, number_session, vnetwork_add_session}
use netvirt.Vnetwork.Ids.{Members, add_session-Members}
use netvirt.Vnetwork.Same.{Members-same}
use netvirt.Cert.{node}
use netvirt.Switch.{World, send, status, auth_response, success, emit, put_session, put_network}
use netvirt.Switch.Handlers.{done, name_network, admit, admit_parsed, on_secure}
use netvirt.Switch.Handlers.Admission.{peer_name}

Alloc-cases :
    (a : Alloc)
    → (a ≡ full) ⊎ ((a ≡ stuck) ⊎ ((bit : ℕ) × (after : List ℕ) × (a ≡ allocated bit after)))
Alloc-cases full = inl refl
Alloc-cases stuck = inr (inl refl)
Alloc-cases (allocated bit after) = inr (inr (bit, after, refl))

module _ {Table : Type 0} (h h' : Heap) (vnet vnet' : Vnetwork Table) (session : ℕ) where
  number_state :
      number_session h vnet session ≡ some (h', vnet') → (p : ℕ) → (h' p).state ≡ (h p).state
  unfolding number_session set_id update
  number_state e p = elim (Alloc-cases (bitpool_allocate_bit vnet.bitpool max_node)) [
    | inl none_left ↦ let t = rw (none_left, number_session) at e in ground arith
    | inr (inl endless_) ↦ absurd (let t = rw (endless_, number_session) at e in ground arith)
    | inr (inr (bit, after, got)) ↦ let t = rw (got, number_session) at e in ground arith
  ]

link_state :
    {Table : Type 0} (h : Heap) (vnet : Vnetwork Table) (session p : ℕ)
    → ((link_session h vnet session).0 p).state ≡ (h p).state
unfolding link_session set_next set_prev update
link_state h vnet session p = ground arith

add_session_state :
    {Table : Type 0} (h h' : Heap) (vnet vnet' : Vnetwork Table) (session : ℕ)
    → vnetwork_add_session h vnet session ≡ some (h', vnet')
    → (p : ℕ) → (h' p).state ≡ (h p).state
unfolding vnetwork_add_session
add_session_state h h' vnet vnet' session e p =
    number_state (link_session h vnet session).0 h' (link_session h vnet session).1 vnet' session e
      p
    ∙ link_state h vnet session p

module _ (tables : HashTable) where
  open tables use {Table}

  on_secure_node :
      (w : World Table) (session : ℕ) (altname cname : Option (List ℕ)) (info : NodeInfo)
      → (w.sessions session).state ≡ wait_stepup
      → peer_name altname cname ≡ node info
      → on_secure tables w session altname cname ≡ admit tables w session info
  unfolding on_secure admit_parsed
  on_secure_node w session (some altname) cname info st e = rw (st, e) refl
  on_secure_node w session none (some cn) info st e = rw (st, e) refl
  on_secure_node w session none none info st e = cc

  -- Once its connection is secured, a waiting session that is in no list, and whose certificate
  -- names a node that its well-formed network knows, becomes a member while some identifier is
  -- free: it is authenticated, it stands first in the list of its network, which stays well
  -- formed, so that it holds an identifier that no other member holds; the controller is told that
  -- the node is up, and then the node that it has been admitted.
  pub on_secure_joins :
      (w : World Table) (xs : List ℕ) (session k : ℕ) (altname cname : Option (List ℕ))
      (info : NodeInfo)
      → let s = w.sessions session in
        let vnet = w.networks s.vnetwork in
        let info' = name_network info vnet.uuid in
        s.state ≡ wait_stepup
        → peer_name altname cname ≡ node info
        → ctable_find tables vnet.atable info.uuid ≢ null
        → Members w.sessions vnet xs
        → session ≢ null
        → mem session xs ≡ false
        → s.prev ≡ null
        → k < max_node
        → get_bit vnet.bitpool k ≡ 0
        → (w' : World Table) × (on_secure tables w session altname cname ≡ done w')
          × Members w'.sessions (w'.networks s.vnetwork) (session ∷ xs)
          × ((w'.sessions session).state ≡ authed)
          × (w'.out
              ≡ w.out
                ++ (status 1 s.ip info'.uuid info'.network_uuid
                    ∷ send s.netc (auth_response success)
                    ∷ []))
  unfolding admit put_session put_network emit update
  on_secure_joins w xs session k altname cname info st named known ms nn new back lt free =
      let s = w.sessions session in
      let vnet = w.networks s.vnetwork in
      let info' = name_network info vnet.uuid in
      let w₁ = put_session w session (record s { node_info = some info'; state = authed }) in
      let ms₁ =
        Members-same w.sessions w₁.sessions vnet vnet xs ms (λ p. ground arith) (λ p. ground arith)
          (λ p. ground arith) refl refl in
      let known? : (ctable_find tables vnet.atable info.uuid == null) ≡ false = ground arith in
      let back₁ : (w₁.sessions session).prev ≡ null = ground arith in
      let (h', vnet', e, ms', _, _) =
        add_session-Members w₁.sessions vnet xs session k ms₁ nn new back₁ lt free in
      let st' = add_session_state w₁.sessions h' vnet vnet' session e session in
      let up = status 1 s.ip info'.uuid info'.network_uuid in
      let answer = send s.netc (auth_response success) in
      let here : (s.vnetwork == s.vnetwork) ≡ true = ground arith in
      (
        emit (emit (put_network (record w₁ { sessions = h' }) s.vnetwork vnet') up) answer,
        on_secure_node w session altname cname info st named ∙ rw (known?, e) refl,
        rw here ms',
        st' ∙ ground arith,
        append_assoc w.out (up ∷ []) (answer ∷ []),
      )
