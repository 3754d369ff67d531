-- ===== src/Switch/Forward/Tenancy.antt =====
-- A frame never leaves the network of its sender.
use netvirt.Prelude.{
  ℕ, ◌<◌, ◌≡◌, ◌≢◌, refl, Bool, true, false, List, [], ◌∷◌, ◌++◌, length, arith, some, ◌==◌, ◌&&◌,
  ◌||◌, not, if◌then◌else◌, sym, ap, ◌∙◌, Bool-cases, inl, inr,
}
use mathlib.Core.List.{append-nil, append_assoc}
use netvirt.Links.{null, mem, Chain-same}
use netvirt.Tables.{HashTable, ftable_find}
use netvirt.Inet.{inet_get_mac_addr_type, inet_get_mac_addr_dst, inet_get_mac_addr_src}
use netvirt.Vnetwork.Members.{Lists}
use netvirt.Switch.{World, send, ethernet, emit, put_network}
use netvirt.Switch.Forward.{
  learn, deliver, introduce, forward_ethernet, is_authed, is_unicast, is_broadcast, is_multicast,
}
use netvirt.Switch.Forward.Flood.{copies, sent, flood-copies}
use netvirt.Linkst.Laws.{is_joined}
use netvirt.Switch.Forward.Introduce.{introduced, introduce_lem}
use netvirt.Switch.Forward.P2p.{introductions}
use netvirt.Switch.Forward.Learn.{learn_keeps, learn_out, learn_network, learn_find}
use netvirt.Switch.Forward.Reach.{
  OnlyTo, copies-AllToMembers, introductions-AllToMembers, AllToMembers-same,
}

-- The sessions that a network can reach are its own.
pub record IsTenant (tables : HashTable) (w : World tables.Table) (n : ℕ) (xs : List ℕ)
    : Type 0 where
  pub lists : Lists w.sessions (w.networks n) xs
  pub members : (p : ℕ) → mem p xs ≡ true → (w.sessions p).vnetwork ≡ n
  pub known :
      (mac : List ℕ)
      → ftable_find tables (w.networks n).ftable mac ≢ null
      → (w.sessions (ftable_find tables (w.networks n).ftable mac)).vnetwork ≡ n

pick_member :
    (vnetwork : ℕ → ℕ) (b : Bool) (s r q n : ℕ)
    → q ≡ (if b then s else r)
    → q ≢ null
    → vnetwork s ≡ n
    → (r ≢ null → vnetwork r ≡ n)
    → vnetwork q ≡ n
pick_member vnetwork true s r q n e ne hs hr = ap vnetwork e ∙ hs
pick_member vnetwork false s r q n e ne hs hr = ap vnetwork e ∙ hr (λ z. ne (e ∙ z))

module _ (tables : HashTable) where
  open tables use {Table}

  -- Learning an address keeps a network to itself.
  pub learn-IsTenant :
      (w : World Table) (session : ℕ) (frame : List ℕ) (xs : List ℕ)
      → session ≢ null
      → IsTenant tables w (w.sessions session).vnetwork xs
      → IsTenant tables (learn tables w session frame).0 (w.sessions session).vnetwork xs
  learn-IsTenant w session frame xs nn t =
      let n = (w.sessions session).vnetwork in
      let keeps = learn_keeps tables w session frame in
      record {
        lists = record {
          chain = rw (learn_network tables w session frame n) (
              Chain-same _ _ _ _ null (w.networks n).session_list xs t.lists.chain
                (λ a i. ((keeps a).2, (keeps a).3)));
          apart = t.lists.apart;
          no_null = t.lists.no_null;
        };
        members = λ p i. (keeps p).0 ∙ t.members p i;
        known = λ mac ne.
            (keeps _).0
            ∙ pick_member (λ p. (w.sessions p).vnetwork) _ session
                (ftable_find tables (w.networks n).ftable mac) _ n
                (learn_find tables w session frame nn mac n) ne refl (t.known mac);
      }

  abbrev send_copy : World Table → ℕ → List ℕ → World Table
  send_copy w dst frame = sent w (send (w.sessions dst).netc (ethernet frame) ∷ [])

  unicast-OnlyTo :
      (now random : ℕ) (w : World Table) (src dst n : ℕ) (frame : List ℕ)
      → (w.sessions src).vnetwork ≡ n
      → (w.sessions dst).vnetwork ≡ n
      → (w' : World Table) × (some (
            introduce tables now random
              (emit w (send (w.sessions dst).netc (ethernet frame)))
              src
              dst)
          ≡ some w')
        × OnlyTo w n w'
  unfolding emit put_network
  unicast-OnlyTo now random w src dst n frame ha hb =
      let w₁ = send_copy w dst frame in
      let first = send (w.sessions dst).netc (ethernet frame) in
      let joined =
        is_joined (w.networks (w.sessions src).vnetwork).linkst (w.sessions src).id
          (w.sessions dst).id in
      elim (Bool-cases joined) [
        | inl old ↦ (
          w₁,
          rw (introduce_lem tables now random w₁ src dst, old),
          (first ∷ [], refl, ((dst, hb, refl), tt)),
        )
        | inr new ↦ (
          introduced now random w₁ src dst,
          rw (introduce_lem tables now random w₁ src dst, new),
          (
            first ∷ introductions random w src dst,
            append_assoc w.out (first ∷ []) (introductions random w src dst),
            ((dst, hb, refl), introductions-AllToMembers random w src dst n ha hb),
          ),
        )
      ]

  -- What becomes of a frame that is no loop reaches members only.
  deliver-OnlyTo :
      (fuel now random : ℕ) (w : World Table) (session src dst n : ℕ) (frame : List ℕ) (xs : List ℕ)
      → IsTenant tables w n xs
      → (w.sessions session).vnetwork ≡ n
      → (w.sessions src).vnetwork ≡ n
      → (dst ≢ null → (w.sessions dst).vnetwork ≡ n)
      → length xs < fuel
      → (w' : World Table) × (deliver tables fuel now random w session src dst frame ≡ some w')
        × OnlyTo w n w'
  unfolding deliver
  deliver-OnlyTo fuel now random w session src dst n frame xs t hs ha hd lt =
      let frames = copies w frame xs in
      let everyone =
        flood-copies fuel w frame null (w.networks n).session_list xs t.lists.chain lt in
      let kind = inet_get_mac_addr_type (inet_get_mac_addr_dst frame) in
      let up = is_unicast kind && not (dst == null) && not ((w.sessions dst).netc == null) in
      let all = is_broadcast kind || is_multicast kind || dst == null in
      elim (Bool-cases up) [
        | inl to_one ↦
            rw to_one (unicast-OnlyTo now random w src dst n frame ha (hd (ground arith)))
        | inr other ↦ elim (Bool-cases all) [
          | inl to_all ↦
              rw (other, to_all, hs)
                (
                  sent w frames,
                  everyone,
                  (frames, refl, copies-AllToMembers w n frame xs t.members),
                )
          | inr nowhere ↦ rw (other, nowhere) (w, refl, ([], sym (append-nil w.out), tt))
        ]
      ]

  -- The session that a source address stands for is in the network.
  learn_source :
      (w : World Table) (session : ℕ) (frame : List ℕ) {xs : List ℕ}
      → IsTenant tables w (w.sessions session).vnetwork xs
      → ((learn tables w session frame).0.sessions (learn tables w session frame).1).vnetwork
        ≡ (w.sessions session).vnetwork
  unfolding learn
  learn_source w session frame t =
      let found =
        ftable_find tables (w.networks (w.sessions session).vnetwork).ftable
          (inet_get_mac_addr_src frame) in
      (learn_keeps tables w session frame _).0 ∙ elim (Bool-cases (found == null)) [
        | inl new ↦ rw new refl
        | inr old ↦ rw old (t.known (inet_get_mac_addr_src frame) (ground arith))
      ]

  -- In a network whose session list is a proper list of its own sessions and whose forwarding
  -- table knows none but these, forwarding any frame for a session ends, given more rounds than
  -- the network has members, and all that it sends are messages to sessions of that same network:
  -- no frame and no introduction crosses from one network to another.
  pub forward-OnlyTo :
      (fuel now random : ℕ) (w : World Table) (session : ℕ) (frame : List ℕ) (xs : List ℕ)
      → session ≢ null
      → IsTenant tables w (w.sessions session).vnetwork xs
      → length xs < fuel
      → (w' : World Table) × (forward_ethernet tables fuel now random w session frame ≡ some w')
        × OnlyTo w (w.sessions session).vnetwork w'
  unfolding forward_ethernet
  forward-OnlyTo fuel now random w session frame xs nn t lt =
      let n = (w.sessions session).vnetwork in
      let w₁ = (learn tables w session frame).0 in
      let src = (learn tables w session frame).1 in
      let keeps = learn_keeps tables w session frame in
      let t₁ = learn-IsTenant w session frame xs nn t in
      let dst = ftable_find tables (w₁.networks n).ftable (inet_get_mac_addr_dst frame) in
      let loop = not (src == null) && not (dst == null) && src == dst in
      elim (Bool-cases (is_authed (w.sessions session).state)) [
        | inr closed ↦ rw closed (w, refl, ([], sym (append-nil w.out), tt))
        | inl open_ ↦
            rw (open_, (keeps session).0)
              (elim (Bool-cases loop) [
                | inl found ↦
                    rw found (
                      w₁,
                      refl,
                      ([], learn_out tables w session frame ∙ sym (append-nil w.out), tt),
                    )
                | inr other ↦
                    let (w', e, only) =
                      deliver-OnlyTo fuel now random w₁ session src dst n frame xs t₁
                        (keeps session).0 (learn_source w session frame t)
                        (t₁.known (inet_get_mac_addr_dst frame)) lt in
                    let (es, o, all) = only in
                    rw other (
                      w',
                      e,
                      (
                        es,
                        o ∙ ap (λ l. l ++ es) (learn_out tables w session frame),
                        AllToMembers-same w w₁ n es (λ p. (keeps p).0) (λ p. (keeps p).1) all,
                      ),
                    )
              ])
      ]
