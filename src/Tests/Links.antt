-- ===== src/Tests/Links.antt =====
-- The link state after concrete calls.
use netvirt.Prelude.{
  ℕ, ◌≡◌, false, List, [], ◌∷◌, arith, ◌==◌, ◌||◌, ◌&&◌, not, ltb, leb, if◌then◌else◌, pos,
  minus_one, some,
}
use netvirt.Linkst.{linkst_join, linkst_disjoin, linkst_new}
use netvirt.Linkst.Inv.{out_of_range}
use netvirt.Linkst.Laws.{is_joined, same_pair, joined-join, joined-disjoin}
use netvirt.Linkst.History.{Call, join, disjoin, run, replay, run_refines}
use netvirt.Tests.Data.{new_links, new_links-IsValid}

abbrev calls : List Call
calls = join 100 3 1 ∷ join 101 2 9 ∷ disjoin 9 ∷ join 102 2000 1 ∷ []

run_refines_example :
    is_joined (run (linkst_new 1024 300) calls) 1 3 ≡ replay 1024 (λ c d. false) calls 1 3
run_refines_example = run_refines 1024 300 calls (omega arith) 1 3

joined-join_example :
    ((linkst_join 100 (some new_links) 3 1).0
      ≡ (if out_of_range new_links 3 1 then minus_one else pos 0))
    × ((c d : ℕ)
        → is_joined (linkst_join 100 (some new_links) 3 1).1 c d ≡ (
            (not (out_of_range new_links 3 1) && same_pair 3 1 c d)
            || is_joined (some new_links) c d))
joined-join_example = joined-join 100 new_links 3 1 new_links-IsValid

joined-disjoin_example :
    ((linkst_disjoin (some new_links) 3).0
      ≡ (if ltb 3 1 || ltb new_links.matrix_size 3 then minus_one else pos 0))
    × ((c d : ℕ)
        → is_joined (linkst_disjoin (some new_links) 3).1 c d
          ≡ (if leb 1 3 && (c == 3 || d == 3) then false else is_joined (some new_links) c d))
joined-disjoin_example = joined-disjoin new_links 3 new_links-IsValid
