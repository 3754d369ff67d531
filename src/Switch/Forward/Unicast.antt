-- ===== src/Switch/Forward/Unicast.antt =====
-- What the handler does with a frame between two known stations, and with one for everybody.
use netvirt.Prelude.{
  ℕ, ◌≡◌, ◌≢◌, ◌<◌, refl, Bool, true, false, List, [], ◌∷◌, ◌++◌, length, arith, some, ◌==◌, ◌&&◌,
  ◌||◌, not, if◌then◌else◌, ap, ◌∙◌, Bool-cases, inl, inr,
}
use mathlib.Core.List.{append_assoc}
use netvirt.Links.{null, update}
use netvirt.Tables.{HashTable, ftable_find}
use netvirt.Inet.{
  AddrType, unicast, inet_get_mac_addr_type, inet_get_mac_addr_dst, inet_get_mac_addr_src,
}
use netvirt.Linkst.{Linkst}
use netvirt.Linkst.Inv.{IsValid, out_of_range}
use netvirt.Linkst.Laws.{is_joined, joined-join, same_pair}
use netvirt.Session.{authed}
use netvirt.Vnetwork.Members.{Lists}
use netvirt.Switch.{World, send, ethernet, emit, put_network}
use netvirt.Switch.Forward.{
  learn, deliver, introduce, forward_ethernet, is_unicast, is_broadcast, is_multicast,
}
use netvirt.Switch.Forward.Flood.{copies, sent, flood-copies}
use netvirt.Switch.Forward.Introduce.{introduced, introduce_lem}
use netvirt.Switch.Forward.P2p.{introductions}

module _ (tables : HashTable) (fuel now random : ℕ) (w : World tables.Table) (session : ℕ)
    (frame : List ℕ) where
  -- The network of the session, and the sessions that it knows for the two addresses.
  abbrev pub home : ℕ
  home = (w.sessions session).vnetwork

  abbrev pub source : ℕ
  source = ftable_find tables (w.networks home).ftable (inet_get_mac_addr_src frame)

  abbrev pub target : ℕ
  target = ftable_find tables (w.networks home).ftable (inet_get_mac_addr_dst frame)

  abbrev pub kind : AddrType
  kind = inet_get_mac_addr_type (inet_get_mac_addr_dst frame)

  learn_known : source ≢ null → learn tables w session frame ≡ (w, source)
  unfolding learn
  learn_known ne = let t : (source == null) ≡ false = ground arith in rw (t, learn)

  -- From an authenticated session, a unicast frame between two different stations that the network
  -- knows, of which the sender's is in the network and the receiver is up, goes to the receiver
  -- alone. If the link state did not have the two as joined, they are introduced to one another
  -- after it; in either case it has them as joined afterwards. The link state is well formed, and
  -- the identifiers of the two are within its limit.
  pub forward_unicast :
      (l : Linkst)
      → (w.sessions session).state ≡ authed
      → source ≢ null
      → target ≢ null
      → source ≢ target
      → (w.sessions target).netc ≢ null
      → kind ≡ unicast
      → (w.sessions source).vnetwork ≡ home
      → (w.networks home).linkst ≡ some l
      → IsValid l
      → out_of_range l (w.sessions source).id (w.sessions target).id ≡ false
      → (w' : World tables.Table) × (forward_ethernet tables fuel now random w session frame
          ≡ some w')
        × (w'.out
            ≡ w.out
              ++ (send (w.sessions target).netc (ethernet frame)
                  ∷ (if is_joined (some l) (w.sessions source).id (w.sessions target).id
                      then []
                      else introductions random w source target)))
        × (is_joined (w'.networks home).linkst (w.sessions source).id (w.sessions target).id ≡ true)
  unfolding forward_ethernet deliver emit put_network update
  forward_unicast l au ns nt ne up uni hs hl v inside =
      let w₁ = sent w (send (w.sessions target).netc (ethernet frame) ∷ []) in
      let a = (w.sessions source).id in
      let b = (w.sessions target).id in
      let t₁ : (not (source == null) && not (target == null) && source == target) ≡ false =
        ground arith in
      let t₂ : (target == null) ≡ false = ground arith in
      let t₃ : ((w.sessions target).netc == null) ≡ false = ground arith in
      let near : (introduce tables now random w₁ source target)
          ≡ (if is_joined (some l) a b then w₁ else introduced now random w₁ source target) =
        introduce_lem tables now random w₁ source target
        ∙ ap (λ k. if is_joined k a b then w₁ else introduced now random w₁ source target)
            (ap (λ n. (w.networks n).linkst) hs ∙ hl) in
      let here : (home == home) ≡ true = ground arith in
      let j = (joined-join now l a b v).1 a b in
      let same : same_pair a b a b ≡ true = ground arith in
      let fin : is_joined ((introduced now random w₁ source target).networks home).linkst a b
          ≡ true =
        rw (hs, here, hl, j, inside, same) refl in
      let settle = λ (t : Bool). if t then w₁ else introduced now random w₁ source target in
      rw (learn_known ns, au, t₁, uni, t₂, t₃)
        (elim (Bool-cases (is_joined (some l) a b)) [
          | inl old ↦ rw old (w₁, ap some (near ∙ ap settle old), refl, rw hl old)
          | inr new ↦ rw new (
            introduced now random w₁ source target,
            ap some (near ∙ ap settle new),
            rw t₃ (
                rw t₃ at (
                  append_assoc w.out (send (w.sessions target).netc (ethernet frame) ∷ [])
                    (introductions random w source target))),
            fin,
          )
        ])

  -- From an authenticated session with a known source address, a frame that is broadcast,
  -- multicast or for an address that the network does not know, and not for the station that sent
  -- it, goes once to every member of the network, in the order of the session list, the sender
  -- included, given more rounds than the network has members.
  pub forward_flood :
      (xs : List ℕ)
      → (w.sessions session).state ≡ authed
      → source ≢ null
      → source ≢ target
      → (is_broadcast kind || is_multicast kind || target == null) ≡ true
      → Lists w.sessions (w.networks home) xs
      → length xs < fuel
      → forward_ethernet tables fuel now random w session frame ≡ some (sent w (copies w frame xs))
  unfolding forward_ethernet deliver
  forward_flood xs au ns ne k l lt =
      let t₁ : (not (source == null) && not (target == null) && source == target) ≡ false =
        ground arith in
      let t₂ : (is_unicast kind && not (target == null) && not ((w.sessions target).netc == null))
          ≡ false =
        ground arith in
      rw (learn_known ns, au, t₁, t₂, k)
        (flood-copies fuel w frame null (w.networks home).session_list xs l.chain lt)
