-- ===== src/Tests/Network.antt =====
-- A session joins and leaves the network of `Tests.Data`, and a network whose pool is used up.
use netvirt.Prelude.{
  ℕ, zero, suc, ◌+◌, ◌-◌, ◌%◌, ◌<◌, ◌≡◌, ◌≢◌, refl, List, [], ◌∷◌, arith, ◌==◌, if◌then◌else◌, some,
  replicate, all_below, at_below, length-replicate, ==_iff,
}
use netvirt.Prelude.Bytes.{u32_mod, byte_bit, byte_set}
use netvirt.Bitmap.{get_bit, set_bit, IsBytes}
use netvirt.Bitpool.{bitpool_new}
use netvirt.Session.{Heap}
use netvirt.Vnetwork.{Vnetwork, vnetwork_add_session, vnetwork_del_session}
use netvirt.Vnetwork.Numbers.{Numbered}
use netvirt.Vnetwork.Ids.{Members, add_session-Members, del_session-Members}
use netvirt.Vnetwork.Full.{add_session_full}
use netvirt.Tests.Keys.{Bindings}
use netvirt.Tests.Data.{sessions, network, network-Members, two_used}

pub fifth_is_free : get_bit two_used 5 ≡ 0
unfolding bitpool_new set_bit get_bit byte_bit byte_set
fifth_is_free = refl

add_session-Members_example :
    (h' : Heap) × (vnet' : Vnetwork Bindings) × (vnetwork_add_session sessions network 3
      ≡ some (h', vnet'))
    × Members h' vnet' (3 ∷ 1 ∷ 2 ∷ [])
    × ((p : ℕ) → p ≢ 3 → (h' p).id ≡ (sessions p).id)
    × (vnet'.active_node ≡ (2 + 1) % u32_mod)
add_session-Members_example =
    add_session-Members sessions network (1 ∷ 2 ∷ []) 3 5 network-Members (omega arith) refl refl
      (omega arith) fifth_is_free

del_session-Members_example :
    Members
      (vnetwork_del_session sessions network 1).0
      (vnetwork_del_session sessions network 1).1
      (2 ∷ [])
    × (get_bit (vnetwork_del_session sessions network 1).1.bitpool (1 - 1) ≡ 0)
    × ((p : ℕ) → ((vnetwork_del_session sessions network 1).0 p).id ≡ (sessions p).id)
    × ((vnetwork_del_session sessions network 1).1.active_node ≡ (2 + u32_mod - 1) % u32_mod)
del_session-Members_example =
    del_session-Members sessions network (1 ∷ 2 ∷ []) 1 network-Members refl

abbrev all_used : List ℕ
all_used = replicate 128 255

all_used-get_bit : (k : ℕ) → k < 1024 → get_bit all_used k ≡ 1
unfolding get_bit byte_bit all_below
all_used-get_bit k lt = (==_iff _ _).0 (at_below (λ k. get_bit all_used k == 1) 1024 lt refl)

all_used-IsBytes : (n : ℕ) → IsBytes (replicate n 255)
all_used-IsBytes zero = tt
all_used-IsBytes (suc n) = (omega arith, all_used-IsBytes n)

abbrev full_network : Vnetwork Bindings
full_network = record network { session_list = 1; bitpool = all_used; active_node = 1024 }

abbrev loners : Heap
loners p = record (sessions p) { next = 0; prev = 0; id = if p == 1 then 1 else 0 }

full_network-Members : Members loners full_network (1 ∷ [])
full_network-Members = record {
  lists = record { chain = (refl, omega arith, refl, refl); apart = refl; no_null = refl };
  numbered = record {
    pool = record {
      bytes = all_used-IsBytes 128;
      room = omega (arith, length-replicate {A = ℕ} 128 255);
      word = omega arith;
    };
    low = λ s i. ground arith;
    high = λ s i. ground arith;
    held = λ s i. all_used-get_bit _ (ground arith);
    unique = λ s t i j e. ground arith;
  };
}

add_session_full_example :
    (h' : Heap) × (vnet' : Vnetwork Bindings) × (vnetwork_add_session loners full_network 2
      ≡ some (h', vnet'))
    × ((h' 2).id ≡ (h' 1).id)
    × (◌≢◌ {A = ℕ} 1 2)
    × ¬ Numbered h' vnet'.bitpool (2 ∷ 1 ∷ [])
add_session_full_example =
    add_session_full loners full_network (1 ∷ []) 2 1 full_network-Members (omega arith) refl refl
      all_used-get_bit refl refl
