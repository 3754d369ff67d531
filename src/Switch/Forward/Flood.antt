-- ===== src/Switch/Forward/Flood.antt =====
-- The walk of a flood along the session list.
use netvirt.Prelude.{
  ℕ, zero, suc, ◌<◌, ◌≡◌, List, [], ◌∷◌, ◌++◌, map, length, arith, some, ◌==◌, false,
}
use mathlib.Core.List.{append-nil, append_assoc}
use netvirt.Links.{null, Chain}
use netvirt.Switch.{World, Event, send, ethernet, emit}
use netvirt.Switch.Forward.{flood}

module _ {Table : Type 0} where
  -- One copy of a frame for each session of a list, in its order.
  abbrev pub copies : World Table → List ℕ → List ℕ → List Event
  copies w frame xs = map (λ s. send (w.sessions s).netc (ethernet frame)) xs

  abbrev pub sent : World Table → List Event → World Table
  sent w es = record w { out = w.out ++ es }

  pub flood-copies :
      (fuel : ℕ) (w : World Table) (frame : List ℕ) (before p : ℕ) (xs : List ℕ)
      → Chain (λ a. (w.sessions a).next) (λ a. (w.sessions a).prev) before p xs
      → length xs < fuel
      → flood fuel w p frame ≡ some (sent w (copies w frame xs))
  unfolding flood emit
  flood-copies zero w frame before p xs c lt = absurd (omega arith)
  flood-copies (suc fuel) w frame before p [] c lt = rw (c, append-nil)
  flood-copies (suc fuel) w frame before p (x ∷ xs) (e, nn, back, rest) lt =
      let here : (x == null) ≡ false = ground arith in
      let e' = send (w.sessions x).netc (ethernet frame) in
      let ih =
        flood-copies fuel (sent w (e' ∷ [])) frame x (w.sessions x).next xs rest (omega arith) in
      let t : ((w.out ++ (e' ∷ [])) ++ copies w frame xs) ≡ w.out ++ (e' ∷ copies w frame xs) =
        append_assoc w.out (e' ∷ []) (copies w frame xs) in
      rw (e, here) (rw t at ih)
