-- ===== src/Mbuf/Steps.antt =====
-- What `mbuf_del` does to the first buffer of a queue, step by step.
use netvirt.Prelude.{ℕ, ◌≡◌, refl, sym, ap, ◌∙◌, arith, ◌==◌, pos, true, false}
use netvirt.Links.{null, update}
use netvirt.Mbuf.{
  Mbuf, forget_tail, skip_from_before, skip_from_behind, head_after, count_down, mbuf_del,
}

module _ (h : ℕ → Mbuf) (x : ℕ) where
  forget-next : (a : ℕ) → (forget_tail h x x a).next ≡ (h a).next
  unfolding forget_tail update
  forget-next a = ground arith

  forget-prev : (a : ℕ) → (forget_tail h x x a).prev ≡ (h a).prev
  unfolding forget_tail update
  forget-prev a = ground arith

  before-same : skip_from_before h x x ≡ h
  unfolding skip_from_before
  before-same = let same : (x == x) ≡ true = ground arith in rw same refl

  behind-next : (a : ℕ) → (skip_from_behind h x a).next ≡ (h a).next
  unfolding skip_from_behind update
  behind-next a = ground arith

  behind-prev : ((h x).next == null) ≡ false → (skip_from_behind h x (h x).next).prev ≡ (h x).prev
  unfolding skip_from_behind update
  behind-prev more = ground arith

  head-next : head_after h x x ≡ (h x).next
  unfolding head_after
  head-next = ground arith

  count-next : (a : ℕ) → (count_down h x a).next ≡ (h a).next
  unfolding count_down update
  count-next a = ground arith

  count-prev : (a : ℕ) → (count_down h x a).prev ≡ (h a).prev
  unfolding count_down update
  count-prev a = ground arith

module _ (h : ℕ → Mbuf) (x : ℕ) (up : (x == null) ≡ false) where
  abbrev after_skips : ℕ → Mbuf
  after_skips = skip_from_behind (forget_tail h x x) x

  del-steps :
      mbuf_del h x x
      ≡ (pos 0, count_down after_skips (head_after after_skips x x), head_after after_skips x x)
  unfolding mbuf_del
  del-steps = rw (up, before-same (forget_tail h x x)) refl

  after-next : (a : ℕ) → (after_skips a).next ≡ (h a).next
  after-next a = behind-next (forget_tail h x x) x a ∙ forget-next h x a

  pub del-code : (mbuf_del h x x).0 ≡ pos 0
  del-code = ap (λ r. r.0) del-steps

  pub del-next : (a : ℕ) → ((mbuf_del h x x).1 a).next ≡ (h a).next
  del-next a =
      ap (λ r. (r.1 a).next) del-steps
      ∙ count-next after_skips (head_after after_skips x x) a
      ∙ after-next a

  pub del-head : (mbuf_del h x x).2 ≡ (h x).next
  del-head = ap (λ r. r.2) del-steps ∙ head-next after_skips x ∙ after-next x

  pub del-prev :
      (y : ℕ) → (h x).next ≡ y → (y == null) ≡ false → ((mbuf_del h x x).1 y).prev ≡ (h x).prev
  del-prev y link more =
      let at_y : (forget_tail h x x x).next ≡ y = forget-next h x x ∙ link in
      ap (λ r. (r.1 y).prev) del-steps
      ∙ count-prev after_skips (head_after after_skips x x) y
      ∙ ap (λ b. (after_skips b).prev) (sym at_y)
      ∙ behind-prev (forget_tail h x x) x (ap (λ b. b == null) at_y ∙ more)
      ∙ forget-prev h x x
