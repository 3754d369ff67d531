-- ===== src/Switch/Handlers/Departure.antt =====
-- A session that goes away: what is left of it in its network.
use netvirt.Prelude.{
  ℕ, ◌∙◌, ◌+◌, ◌%◌, ◌-◌, ◌≡◌, ◌≢◌, refl, Bool, true, false, ◌==◌, ◌||◌, if◌then◌else◌, List, [],
  ◌∷◌, ◌++◌, take, arith, some,
}
use mathlib.Core.List.{append_assoc}
use netvirt.Prelude.Bytes.{u32_mod}
use netvirt.Links.{null, mem, erase, update}
use netvirt.Bitmap.{get_bit}
use netvirt.Tables.{HashTable, ftable_find, ftable_erase, ctable_find, ctable_erase}
use netvirt.Linkst.{Linkst, linkst_disjoin}
use netvirt.Linkst.Inv.{IsValid}
use netvirt.Linkst.Laws.{is_joined, joined-disjoin}
use netvirt.Session.{Session, NodeInfo, set_next, set_prev}
use netvirt.Vnetwork.{Vnetwork, vnetwork_del_session, unlink_session}
use netvirt.Vnetwork.Ids.{Members, del_session-Members}
use netvirt.Vnetwork.Same.{Members-same}
use netvirt.Switch.{World, status, free_session, emit, put_session, put_network}
use netvirt.Switch.Handlers.{done, is_not_authed, erase_macs, leave, farewell, on_disconnect}

module _ (tables : HashTable) where
  open tables use {Table, same_key, same_key_iff, find_erase}

  -- Whether an address is, in its first six bytes, one of a list.
  abbrev pub has_mac : List (List ℕ) → List ℕ → Bool
  has_mac [] mac = false
  has_mac (m ∷ mac_list) mac = same_key (take 6 m) (take 6 mac) || has_mac mac_list mac

  erase_macs_lem :
      (t : Table) (mac_list : List (List ℕ)) (mac : List ℕ)
      → ftable_find tables (erase_macs tables t mac_list) mac
        ≡ (if has_mac mac_list mac then null else ftable_find tables t mac)
  unfolding erase_macs ftable_find ftable_erase
  erase_macs_lem t [] mac = refl
  erase_macs_lem t (m ∷ mac_list) mac = ground (
    arith,
    erase_macs_lem (ftable_erase tables t m) mac_list mac,
    find_erase t (take 6 m) (take 6 mac),
  )

  del_session_tables :
      (h : ℕ → Session) (vnet : Vnetwork Table) (session : ℕ)
      → let vnet' = (vnetwork_del_session h vnet session).1 in
        (vnet'.ftable ≡ vnet.ftable) × (vnet'.linkst ≡ vnet.linkst) × (vnet'.ctable ≡ vnet.ctable)
  unfolding vnetwork_del_session unlink_session
  del_session_tables h vnet session = (ground arith, ground arith, ground arith)

  pub del_session_ip :
      (h : ℕ → Session) (vnet : Vnetwork Table) (session p : ℕ)
      → ((vnetwork_del_session h vnet session).0 p).ip ≡ (h p).ip
  unfolding vnetwork_del_session unlink_session set_next set_prev update
  del_session_ip h vnet session p = ground arith

  ctable_find-erase :
      (t : Table) (uuid u : List ℕ)
      → ctable_find tables (ctable_erase tables t uuid) u
        ≡ (if same_key (take 36 uuid) (take 36 u) then null else ctable_find tables t u)
  unfolding ctable_find ctable_erase
  ctable_find-erase t uuid u = find_erase t (take 36 uuid) (take 36 u)

  pub disconnect_known :
      (w : World Table) (netc : ℕ) (info : NodeInfo)
      → let session = (w.netcs netc).ext_ptr in
        let s = w.sessions session in
        session ≢ null
        → is_not_authed s.state ≡ false
        → s.node_info ≡ some info
        → s.vnetwork ≢ null
        → on_disconnect tables w netc
          ≡ done (farewell tables (leave tables w session info.uuid) session info)
  unfolding on_disconnect
  disconnect_known w netc info ns open_ known nv =
      let session = (w.netcs netc).ext_ptr in
      let t₁ : (session == null) ≡ false = ground arith in
      let t₂ : ((w.sessions session).vnetwork == null) ≡ false = ground arith in
      rw (t₁, open_, known, t₂) refl

  -- When the connection of a member of a well-formed network goes down, the network stays well
  -- formed without it, the others in their order, and its identifier is free. Its addresses are gone
  -- and every other address is known as before; the entry of its node among the connected nodes is
  -- gone and every other entry is as before; no link with it is left and every other link is as it
  -- was. The count of active nodes is one less, modulo 2 ^ 32, every session keeps its identifier,
  -- and no other network has changed. The controller is told, and the session is freed last.
  pub on_disconnect_leaves :
      (w : World Table) (netc : ℕ) (info : NodeInfo) (xs : List ℕ) (l : Linkst)
      → let session = (w.netcs netc).ext_ptr in
        let s = w.sessions session in
        let vnet = w.networks s.vnetwork in
        session ≢ null
        → is_not_authed s.state ≡ false
        → s.node_info ≡ some info
        → s.vnetwork ≢ null
        → Members w.sessions vnet xs
        → mem session xs ≡ true
        → vnet.linkst ≡ some l
        → IsValid l
        → (w' : World Table) × (on_disconnect tables w netc ≡ done w')
          × Members w'.sessions (w'.networks s.vnetwork) (erase session xs)
          × (get_bit (w'.networks s.vnetwork).bitpool (s.id - 1) ≡ 0)
          × ((mac : List ℕ)
              → ftable_find tables (w'.networks s.vnetwork).ftable mac
                ≡ (if has_mac s.mac_list mac then null else ftable_find tables vnet.ftable mac))
          × ((u : List ℕ)
              → ctable_find tables (w'.networks s.vnetwork).ctable u ≡ (
                  if same_key (take 36 info.uuid) (take 36 u)
                  then null
                  else ctable_find tables vnet.ctable u))
          × ((w'.networks s.vnetwork).active_node ≡ (vnet.active_node + u32_mod - 1) % u32_mod)
          × ((p : ℕ) → p ≢ s.vnetwork → w'.networks p ≡ w.networks p)
          × ((p : ℕ) → (w'.sessions p).id ≡ (w.sessions p).id)
          × ((c d : ℕ)
              → is_joined (w'.networks s.vnetwork).linkst c d
                ≡ (if c == s.id || d == s.id then false else is_joined (some l) c d))
          × (w'.out
              ≡ w.out ++ (status 0 s.ip info.uuid info.network_uuid ∷ free_session session ∷ []))
  unfolding leave farewell put_session put_network emit update
  on_disconnect_leaves w netc info xs l ns open_ known nv ms m hl v =
      let session = (w.netcs netc).ext_ptr in
      let s = w.sessions session in
      let vnet = w.networks s.vnetwork in
      let s' = record s { mac_list = [] } in
      let w₁ = put_session w session s' in
      let vnet' = record vnet {
        linkst = (linkst_disjoin vnet.linkst s.id).1;
        ftable = erase_macs tables vnet.ftable s.mac_list;
        ctable = ctable_erase tables vnet.ctable info.uuid;
      } in
      let ms₁ =
        Members-same w.sessions w₁.sessions vnet vnet' xs ms (λ p. ground arith) (λ p. ground arith)
          (λ p. ground arith) refl refl in
      let (ms', bit, ids, count) = del_session-Members w₁.sessions vnet' xs session ms₁ m in
      let (f, k, c) = del_session_tables w₁.sessions vnet' session in
      let here : (s.vnetwork == s.vnetwork) ≡ true = ground arith in
      let id₁ : (w₁.sessions session).id ≡ s.id = ground arith in
      let ip = del_session_ip w₁.sessions vnet' session session in
      let ip₁ : (w₁.sessions session).ip ≡ s.ip = ground arith in
      let low = ms.numbered.low session m in
      let up = status 0 s.ip info.uuid info.network_uuid in
      (
        farewell tables (leave tables w session info.uuid) session info,
        disconnect_known w netc info ns open_ known nv,
        rw here ms',
        rw here (rw id₁ at bit),
        λ mac. rw (here, f) (erase_macs_lem vnet.ftable s.mac_list mac),
        λ u. rw (here, c) (ctable_find-erase vnet.ctable info.uuid u),
        rw here count,
        λ p other. ground arith,
        λ p. ids p ∙ ground arith,
        λ x y. rw (here, k, hl) (ground (arith, (joined-disjoin l s.id v).1 x y)),
        rw (ip, ip₁) (append_assoc w.out (up ∷ []) (free_session session ∷ [])),
      )
