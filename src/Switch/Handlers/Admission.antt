-- ===== src/Switch/Handlers/Admission.antt =====
-- Who is admitted to a network, and how.
use netvirt.Prelude.{
  ℕ, ◌≡◌, ◌≢◌, refl, true, false, ◌==◌, ℤ, pos, minus_one, List, arith, Option, none, some, ◌⊎◌,
  inl, inr, Bool-cases,
}
use netvirt.Links.{null, update}
use netvirt.Tables.{HashTable, ctable_find}
use netvirt.Session.{SessionState, NodeInfo, authed, not_authed, wait_stepup, purge}
use netvirt.Cert.{Parsed, invalid, undefined, node, cn2node_info, altname2node_info}
use netvirt.Switch.{World, emit, put_session, put_network}
use netvirt.Switch.Handlers.{
  done, is_wait_stepup, is_not_authed, is_unsecure, admit, admit_parsed, on_secure, join_network,
  auth_request,
}

-- The name of the peer as `on_secure` reads it: the alternative name before the common one.
abbrev pub peer_name : Option (List ℕ) → Option (List ℕ) → Parsed
peer_name (some altname) cname = altname2node_info altname
peer_name none (some cn) = cn2node_info cn
peer_name none none = invalid

module _ (tables : HashTable) where
  open tables use {Table}

  parsed_known :
      (w w' : World Table) (session : ℕ) (parsed : Parsed)
      → (w.sessions session).state ≢ authed
      → admit_parsed tables w session parsed ≡ done w'
      → (w'.sessions session).state ≡ authed
      → (info : NodeInfo) × (parsed ≡ node info)
        × (ctable_find tables (w.networks (w.sessions session).vnetwork).atable info.uuid ≢ null)
  unfolding admit_parsed admit put_session emit put_network update
  parsed_known w w' session invalid ne e a = cc
  parsed_known w w' session undefined ne e a = cc
  parsed_known w w' session (node info) ne e a =
      let known = ctable_find tables (w.networks (w.sessions session).vnetwork).atable info.uuid in
      elim (Bool-cases (known == null)) [
        | inl unknown ↦ absurd (let t = rw unknown at e in ground arith)
        | inr found ↦ (info, refl, ground arith)
      ]

  waiting :
      (state : SessionState)
      → is_wait_stepup state ≡ true
      → (state ≡ wait_stepup) × (state ≢ authed)
  waiting authed h = cc
  waiting not_authed h = cc
  waiting wait_stepup h = (refl, λ e. cc)
  waiting purge h = cc

  -- Where `on_secure` ends with the session authenticated, the session was so before, or it waited
  -- for its connection to be secured, and its certificate names a node that the network knows.
  pub on_secure_admits :
      (w w' : World Table) (session : ℕ) (altname cname : Option (List ℕ))
      → on_secure tables w session altname cname ≡ done w'
      → (w'.sessions session).state ≡ authed
      → ((w.sessions session).state ≡ authed)
        ⊎ (((w.sessions session).state ≡ wait_stepup)
            × (info : NodeInfo) × (peer_name altname cname ≡ node info)
            × (ctable_find tables (w.networks (w.sessions session).vnetwork).atable info.uuid
                ≢ null))
  unfolding on_secure admit_parsed admit put_session emit put_network update
  on_secure_admits w w' session (some altname) cname e a =
      elim (Bool-cases (is_wait_stepup (w.sessions session).state)) [
        | inl here ↦
            let (is, not_yet) = waiting (w.sessions session).state here in
            let (info, named, known) =
              parsed_known w w' session (altname2node_info altname) not_yet (rw here at e) a in
            inr (is, info, named, known)
        | inr other ↦ inl (let t = rw other at e in ground arith)
      ]
  on_secure_admits w w' session none (some cn) e a =
      elim (Bool-cases (is_wait_stepup (w.sessions session).state)) [
        | inl here ↦
            let (is, not_yet) = waiting (w.sessions session).state here in
            let (info, named, known) =
              parsed_known w w' session (cn2node_info cn) not_yet (rw here at e) a in
            inr (is, info, named, known)
        | inr other ↦ inl (let t = rw other at e in ground arith)
      ]
  on_secure_admits w w' session none none e a =
      elim (Bool-cases (is_wait_stepup (w.sessions session).state)) [
        | inl here ↦ inl (let t = rw here at e in ground arith)
        | inr other ↦ inl (let t = rw other at e in ground arith)
      ]

  Parsed-cases :
      (parsed : Parsed)
      → (parsed ≡ invalid) ⊎ ((parsed ≡ undefined) ⊎ ((info : NodeInfo) × (parsed ≡ node info)))
  Parsed-cases invalid = inl refl
  Parsed-cases undefined = inr (inl refl)
  Parsed-cases (node info) = inr (inr (info, refl))

  join_waits :
      (w w' : World Table) (session : ℕ) (cert_name : List ℕ) (info : NodeInfo) (n : ℕ) (code : ℤ)
      → is_unsecure (w.netcs (w.sessions session).netc).security_level ≡ false
      → join_network tables w session cert_name info n ≡ done (code, w')
      → ((code ≡ pos 0) × ((w'.sessions session).state ≡ wait_stepup))
        ⊎ ((code ≡ minus_one) × ((w'.sessions session).state ≡ (w.sessions session).state))
  unfolding join_network put_session emit put_network update
  join_waits w w' session cert_name info n code s e = elim (Bool-cases (n == null)) [
    | inl nowhere ↦ let t = rw nowhere at e in inr (ground arith)
    | inr found ↦ let t = rw (found, s) at e in inl (ground arith)
  ]

  -- On a connection that is to be secured, a request for authentication that ends returns 0 with
  -- the session waiting for that, or -1 with the state of the session as it was: it never grants
  -- anything.
  pub auth_request_waits :
      (w w' : World Table) (session : ℕ) (cert_name : List ℕ) (code : ℤ)
      → is_unsecure (w.netcs (w.sessions session).netc).security_level ≡ false
      → auth_request tables w session cert_name ≡ done (code, w')
      → ((code ≡ pos 0) × ((w'.sessions session).state ≡ wait_stepup))
        ⊎ ((code ≡ minus_one) × ((w'.sessions session).state ≡ (w.sessions session).state))
  unfolding auth_request join_network put_session emit put_network update
  auth_request_waits w w' session cert_name code s e =
      elim (Bool-cases (is_not_authed (w.sessions session).state)) [
        | inr other ↦ let t = rw other at e in inr (ground arith)
        | inl here ↦ elim (Parsed-cases (cn2node_info cert_name)) [
          | inl bad ↦ let t = rw (here, bad) at e in inr (ground arith)
          | inr (inl past_end) ↦ absurd (let t = rw (here, past_end) at e in ground arith)
          | inr (inr (info, named)) ↦
              join_waits w w' session cert_name info _ code s (rw (here, named) at e)
        ]
      ]
