-- ===== src/Switch/Handlers/Faults.antt =====
-- Orders of events that leave a network without its members, or free a session twice.
use netvirt.Prelude.{
  ℕ, ◌≡◌, ◌≢◌, refl, true, false, ◌==◌, if◌then◌else◌, pos, List, [], ◌∷◌, ◌++◌, arith, some,
  Bool-cases, Option-cases, inl, inr, ◌⊎◌, sym, ap, ◌∙◌,
}
use mathlib.Core.List.{append_assoc}
use netvirt.Links.{null, update}
use netvirt.Tables.{HashTable, ctable_erase, ctable_insert}
use netvirt.Linkst.{linkst_disjoin}
use netvirt.Session.{Session, NodeInfo, authed, not_authed}
use netvirt.Vnetwork.{Vnetwork, vnetwork_del_session, unlink_session}
use netvirt.Cert.{node, cn2node_info}
use netvirt.Switch.{
  World, Event, send, auth_response, success, status, free_session, drop_connection, emit,
  put_session, put_network,
}
use netvirt.Switch.Handlers.{
  Outcome, done, wild, endless, is_not_authed, is_unsecure, name_network, erase_macs, leave,
  farewell, on_secure, join_network, auth_request, on_disconnect, net_disconnect, session_terminate,
}
use netvirt.Switch.Handlers.Departure.{disconnect_known}

del_unlinked :
    {Table : Type 0} (h : ℕ → Session) (vnet : Vnetwork Table) (session : ℕ)
    → (h session).next ≡ null
    → (h session).prev ≡ null
    → ((vnetwork_del_session h vnet session).1.session_list ≡ null)
      × ((vnetwork_del_session h vnet session).0 ≡ h)
unfolding vnetwork_del_session unlink_session
del_unlinked h vnet session next prev = rw (next, prev) (refl, refl)

Outcome-cases {ℓ} :
    {A : Type ℓ} (o : Outcome A) → ((a : A) × (o ≡ done a)) ⊎ ((o ≡ wild) ⊎ (o ≡ endless))
Outcome-cases (done a) = inl (a, refl)
Outcome-cases wild = inr (inl refl)
Outcome-cases endless = inr (inr refl)

result_or {ℓ} : {A : Type ℓ} → A → Outcome A → A
result_or a (done b) = b
result_or a wild = a
result_or a endless = a

done_inj {ℓ} : {A : Type ℓ} (a b : A) → Outcome.done a ≡ Outcome.done b → a ≡ b
unfolding result_or
done_inj a b e = ap (result_or a) e

module _ (tables : HashTable) where
  open tables use {Table}

  -- When the connection of a session goes down that has asked for authentication and whose two
  -- links are NULL, as they are while it still waits for its connection to be secured, the session
  -- list of its network is NULL afterwards, whatever it was, although every other session is as it
  -- was.
  pub on_disconnect_unlinked :
      (w : World Table) (netc : ℕ) (info : NodeInfo)
      → let session = (w.netcs netc).ext_ptr in
        let s = w.sessions session in
        session ≢ null
        → is_not_authed s.state ≡ false
        → s.node_info ≡ some info
        → s.vnetwork ≢ null
        → s.next ≡ null
        → s.prev ≡ null
        → (w' : World Table) × (on_disconnect tables w netc ≡ done w')
          × ((w'.networks s.vnetwork).session_list ≡ null)
          × ((p : ℕ) → p ≢ session → w'.sessions p ≡ w.sessions p)
  unfolding leave farewell put_session put_network emit update
  on_disconnect_unlinked w netc info ns open_ known nv next prev =
      let session = (w.netcs netc).ext_ptr in
      let s = w.sessions session in
      let vnet = w.networks s.vnetwork in
      let w₁ = put_session w session (record s { mac_list = [] }) in
      let vnet' = record vnet {
        linkst = (linkst_disjoin vnet.linkst s.id).1;
        ftable = erase_macs tables vnet.ftable s.mac_list;
        ctable = ctable_erase tables vnet.ctable info.uuid;
      } in
      let next₁ : (w₁.sessions session).next ≡ null = ground arith in
      let prev₁ : (w₁.sessions session).prev ≡ null = ground arith in
      let (head, same) = del_unlinked w₁.sessions vnet' session next₁ prev₁ in
      let here : (s.vnetwork == s.vnetwork) ≡ true = ground arith in
      (
        farewell tables (leave tables w session info.uuid) session info,
        disconnect_known tables w netc info ns open_ known nv,
        rw here head,
        λ p ne. ap (λ h. h p) same ∙ (let t : (p == session) ≡ false = ground arith in rw t refl),
      )

  farewell_out :
      (w : World Table) (session : ℕ) (info : NodeInfo)
      → (es : List Event) × ((farewell tables w session info).out
          ≡ es ++ (free_session session ∷ []))
  unfolding farewell emit
  farewell_out w session info =
      (w.out ++ (status 0 (w.sessions session).ip info.uuid info.network_uuid ∷ []), refl)

  freed_out :
      (w : World Table) (session : ℕ)
      → (emit w (free_session session)).out ≡ w.out ++ (free_session session ∷ [])
  unfolding emit
  freed_out w session = refl

  disconnect_frees :
      (w w' : World Table) (netc : ℕ)
      → (w.netcs netc).ext_ptr ≢ null
      → on_disconnect tables w netc ≡ done w'
      → (es : List Event) × (w'.out ≡ es ++ (free_session (w.netcs netc).ext_ptr ∷ []))
  unfolding on_disconnect
  disconnect_frees w w' netc ns e =
      let session = (w.netcs netc).ext_ptr in
      let s = w.sessions session in
      let t : (session == null) ≡ false = ground arith in
      elim (Bool-cases (is_not_authed s.state)) [
        | inl fresh ↦ (
          w.out,
          ap (λ v. v.out) (sym (done_inj _ w' (rw (t, fresh) at e))) ∙ freed_out w session,
        )
        | inr other ↦ elim (Option-cases s.node_info) [
          | inl unknown ↦ absurd (let d = rw (t, other, unknown) at e in ground arith)
          | inr (info, known) ↦
              let left = if s.vnetwork == null then w else leave tables w session info.uuid in
              let (es, o) = farewell_out left session info in
              (es, ap (λ v. v.out) (sym (done_inj _ w' (rw (t, other, known) at e))) ∙ o)
        ]
      ]

  net_disconnect_frees :
      (w w' : World Table) (netc : ℕ)
      → netc ≢ null
      → (w.netcs netc).ext_ptr ≢ null
      → net_disconnect tables w netc ≡ done w'
      → (es : List Event) × (w'.out
          ≡ es ++ (free_session (w.netcs netc).ext_ptr ∷ drop_connection netc ∷ []))
  unfolding net_disconnect emit
  net_disconnect_frees w w' netc nn ns e =
      let t : (netc == null) ≡ false = ground arith in
      elim (Outcome-cases (on_disconnect tables w netc)) [
        | inl (v, gone) ↦
            let (es, o) = disconnect_frees w v netc ns gone in
            let session = (w.netcs netc).ext_ptr in
            (
              es,
              ap (λ v. v.out) (sym (done_inj _ w' (rw (t, gone) at e)))
                  ∙ ap (λ o. o ++ (drop_connection netc ∷ [])) o
                  ∙ append_assoc es (free_session session ∷ []) (drop_connection netc ∷ []),
            )
        | inr (inl past) ↦ absurd (let d = rw (t, past) at e in ground arith)
        | inr (inr never) ↦ absurd (let d = rw (t, never) at e in ground arith)
      ]

  -- Whenever `session_terminate` ends, with a session that its connection knows, it has freed that
  -- session twice: once in `on_disconnect`, and once more after the connection is gone.
  pub session_terminate_frees_twice :
      (w w' : World Table) (session : ℕ)
      → session ≢ null
      → (w.sessions session).netc ≢ null
      → (w.netcs (w.sessions session).netc).ext_ptr ≡ session
      → session_terminate tables w session ≡ done w'
      → (es : List Event) × (w'.out
          ≡ es
            ++ (free_session session
                ∷ drop_connection (w.sessions session).netc
                ∷ free_session session
                ∷ []))
  unfolding session_terminate emit
  session_terminate_frees_twice w w' session ns nn back e =
      let netc = (w.sessions session).netc in
      elim (Outcome-cases (net_disconnect tables w netc)) [
        | inl (v, gone) ↦
            let (es, o) = net_disconnect_frees w v netc nn (λ z. ns (sym back ∙ z)) gone in
            let first = (w.netcs netc).ext_ptr in
            (
              es,
              ap (λ v. v.out) (sym (done_inj _ w' (rw (gone, session_terminate) at e)))
                  ∙ ap (λ o. o ++ (free_session session ∷ [])) o
                  ∙ append_assoc es (free_session first ∷ drop_connection netc ∷ [])
                      (free_session session ∷ [])
                  ∙ ap
                      (λ f.
                        es ++ (free_session f ∷ drop_connection netc ∷ free_session session ∷ []))
                      back,
            )
        | inr (inl past) ↦ absurd (let d = rw (past, session_terminate) at e in ground arith)
        | inr (inr never) ↦ absurd (let d = rw (never, session_terminate) at e in ground arith)
      ]

  -- The world in which the session has been let in without a secure connection.
  abbrev pub granted : World Table → ℕ → List ℕ → NodeInfo → ℕ → World Table
  granted w session cert_name info n =
      let s = w.sessions session in
      let vnet = w.networks n in
      let info' = name_network info vnet.uuid in
      emit
        (put_session
          (put_network w n
            (record vnet { ctable = ctable_insert tables vnet.ctable info'.uuid session }))
          session
          (record s {
            node_info = some info';
            vnetwork = n;
            cert_name = some cert_name;
            state = authed;
          }))
        (send s.netc (auth_response success))

  granted_lem :
      (w : World Table) (session : ℕ) (cert_name : List ℕ) (info : NodeInfo) (n : ℕ)
      → let w' = granted w session cert_name info n in
        ((w'.sessions session).state ≡ authed)
        × ((w'.networks n).session_list ≡ (w.networks n).session_list)
        × ((w'.networks n).bitpool ≡ (w.networks n).bitpool)
        × ((p : ℕ)
            → ((w'.sessions p).next ≡ (w.sessions p).next)
              × ((w'.sessions p).prev ≡ (w.sessions p).prev)
              × ((w'.sessions p).id ≡ (w.sessions p).id))
  unfolding put_session put_network emit update
  granted_lem w session cert_name info n =
      (ground arith, ground arith, ground arith, λ p. (ground arith, ground arith, ground arith))

  -- On a connection that is not to be secured, a request for authentication that names a known
  -- network is granted at once, and the session is authenticated without being a member: the
  -- session list and the pool of the network, and the links and identifier of every session, are
  -- as they were.
  pub auth_request_unsecure :
      (w : World Table) (session : ℕ) (cert_name : List ℕ) (info : NodeInfo)
      → let n = if info.v == 1 then w.find_id info.network_id else w.find_uuid info.network_uuid in
        (w.sessions session).state ≡ not_authed
        → is_unsecure (w.netcs (w.sessions session).netc).security_level ≡ true
        → cn2node_info cert_name ≡ node info
        → n ≢ null
        → (w' : World Table) × (auth_request tables w session cert_name ≡ done (pos 0, w'))
          × ((w'.sessions session).state ≡ authed)
          × ((w'.networks n).session_list ≡ (w.networks n).session_list)
          × ((w'.networks n).bitpool ≡ (w.networks n).bitpool)
          × ((p : ℕ)
              → ((w'.sessions p).next ≡ (w.sessions p).next)
                × ((w'.sessions p).prev ≡ (w.sessions p).prev)
                × ((w'.sessions p).id ≡ (w.sessions p).id))
  unfolding auth_request join_network on_secure put_session put_network emit update
  auth_request_unsecure w session cert_name info st un named found =
      let n = if info.v == 1 then w.find_id info.network_id else w.find_uuid info.network_uuid in
      let here : (session == session) ≡ true = ground arith in
      let t : (n == null) ≡ false = ground arith in
      let (st', head, pool, links) = granted_lem w session cert_name info n in
      (granted w session cert_name info n, rw (st, named, t, un, here) refl, st', head, pool, links)
