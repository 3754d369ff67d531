-- ===== src/Switch/Forward/Reach.antt =====
-- Whom the messages of a run of the handler go to.
use netvirt.Prelude.{
  ℕ, ◌≡◌, refl, true, List, [], ◌∷◌, ◌++◌, arith, ◌==◌, ◌||◌, sym, ◌∙◌, Bool-cases, inl, inr,
}
use netvirt.Links.{null, mem}
use netvirt.Switch.{
  World, Event, send, step_up, drop_connection, status, free_session, query_provisioning,
}
use netvirt.Switch.Forward.Flood.{copies}
use netvirt.Switch.Forward.P2p.{introductions}

module _ {Table : Type 0} where
  -- A message to the connection of a session of network `n`.
  abbrev pub ToMember : World Table → ℕ → Event → Type 0
  ToMember w n (send c m) = (p : ℕ) × ((w.sessions p).vnetwork ≡ n) × ((w.sessions p).netc ≡ c)
  ToMember w n (step_up c) = ⊥
  ToMember w n (drop_connection c) = ⊥
  ToMember w n (status o i u v) = ⊥
  ToMember w n (free_session s) = ⊥
  ToMember w n (query_provisioning s c) = ⊥

  abbrev pub AllToMembers : World Table → ℕ → List Event → Type 0
  AllToMembers w n [] = Unit
  AllToMembers w n (e ∷ es) = ToMember w n e × AllToMembers w n es

  -- The output of the second world is that of the first and messages to members.
  abbrev pub OnlyTo : World Table → ℕ → World Table → Type 0
  OnlyTo w n w' = (es : List Event) × (w'.out ≡ w.out ++ es) × AllToMembers w n es

  pub copies-AllToMembers :
      (w : World Table) (n : ℕ) (frame : List ℕ) (xs : List ℕ)
      → ((p : ℕ) → mem p xs ≡ true → (w.sessions p).vnetwork ≡ n)
      → AllToMembers w n (copies w frame xs)
  copies-AllToMembers w n frame [] h = tt
  copies-AllToMembers w n frame (x ∷ xs) h =
      ((x, h x (ground arith), refl), copies-AllToMembers w n frame xs (λ p i. h p (ground arith)))

  pub introductions-AllToMembers :
      (random : ℕ) (w : World Table) (a b n : ℕ)
      → (w.sessions a).vnetwork ≡ n
      → (w.sessions b).vnetwork ≡ n
      → AllToMembers w n (introductions random w a b)
  introductions-AllToMembers random w a b n ha hb =
      elim (Bool-cases ((w.sessions a).netc == null || (w.sessions b).netc == null)) [
        | inl down ↦ rw down tt
        | inr up ↦ rw up ((a, ha, refl), ((b, hb, refl), tt))
      ]

  pub AllToMembers-same :
      (w v : World Table) (n : ℕ) (es : List Event)
      → ((p : ℕ) → (v.sessions p).vnetwork ≡ (w.sessions p).vnetwork)
      → ((p : ℕ) → (v.sessions p).netc ≡ (w.sessions p).netc)
      → AllToMembers v n es
      → AllToMembers w n es
  AllToMembers-same w v n [] hv hn a = tt
  AllToMembers-same w v n (step_up c ∷ es) hv hn a = absurd a.0
  AllToMembers-same w v n (drop_connection c ∷ es) hv hn a = absurd a.0
  AllToMembers-same w v n (status o i u x ∷ es) hv hn a = absurd a.0
  AllToMembers-same w v n (free_session s ∷ es) hv hn a = absurd a.0
  AllToMembers-same w v n (query_provisioning s c ∷ es) hv hn a = absurd a.0
  AllToMembers-same w v n (send c m ∷ es) hv hn ((p, x, y), a) =
      ((p, sym (hv p) ∙ x, sym (hn p) ∙ y), AllToMembers-same w v n es hv hn a)
