-- ===== src/Switch/Forward/P2p.antt =====
-- The introduction of two peers by `p2pRequest`.
use netvirt.Prelude.{
  ℕ, ◌≤◌, ◌≡◌, List, [], ◌∷◌, arith, ◌==◌, ◌||◌, if◌then◌else◌, Bool-cases, inl, inr,
}
use mathlib.Core.List.{append-nil, append_assoc}
use netvirt.Links.{null}
use netvirt.Switch.{World, Event, send, p2p_message, client, server, emit}
use netvirt.Switch.Forward.{p2p_request, p2p_port, same_host}
use netvirt.Switch.Forward.Flood.{sent}

module _ {Table : Type 0} where
  -- The address at which a peer is told to find another.
  abbrev pub seen_at : World Table → ℕ → ℕ → List ℕ
  seen_at w a b =
      let host = λ (s : ℕ). (w.netcs (w.sessions s).netc).host in
      if same_host (host a) (host b) then (w.sessions b).ip_local else host b

  abbrev pub introductions : ℕ → World Table → ℕ → ℕ → List Event
  introductions random w a b =
      if (w.sessions a).netc == null || (w.sessions b).netc == null
      then []
      else send (w.sessions a).netc
          (p2p_message (w.sessions b).tun_mac_addr (seen_at w a b) (p2p_port random) client)
        ∷ send (w.sessions b).netc (
            p2p_message (w.sessions a).tun_mac_addr
              (if same_host (w.netcs (w.sessions a).netc).host (w.netcs (w.sessions b).netc).host
                then (w.sessions a).ip_local
                else (w.netcs (w.sessions a).netc).host)
              (p2p_port random) server)
        ∷ []

  pub p2p_request-introductions :
      (random : ℕ) (w : World Table) (a b : ℕ)
      → p2p_request random w a b ≡ sent w (introductions random w a b)
  unfolding p2p_request emit
  p2p_request-introductions random w a b =
      elim (Bool-cases ((w.sessions a).netc == null || (w.sessions b).netc == null)) [
        | inl down ↦ rw (down, append-nil)
        | inr up ↦ rw (up, append_assoc)
      ]

-- The port of an introduction is one of the private range.
pub p2p_port_range : (random : ℕ) → (49152 ≤ p2p_port random) × (p2p_port random ≤ 65535)
unfolding p2p_port
p2p_port_range random = (omega arith, omega arith)
