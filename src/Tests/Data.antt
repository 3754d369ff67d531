-- ===== src/Tests/Data.antt =====
-- A network of two sessions, at addresses 1 and 2, and pools of identifiers.
use netvirt.Prelude.{
  ℕ, zero, suc, ◌+◌, ◌-◌, ◌≡◌, refl, true, List, [], ◌∷◌, arith, ◌==◌, if◌then◌else◌, some, none,
}
use netvirt.Prelude.Bytes.{byte_bit, byte_set}
use netvirt.Bitmap.{set_bit, get_bit}
use netvirt.Bitpool.{bitpool_new}
use netvirt.Bitpool.Laws.{IsPool, bitpool_new-IsPool, set_bit-IsPool}
use netvirt.Links.{mem}
use netvirt.Linkst.{Linkst}
use netvirt.Linkst.Inv.{IsValid}
use netvirt.Session.{Heap, authed}
use netvirt.Vnetwork.{Vnetwork, max_node}
use netvirt.Vnetwork.Members.{Lists}
use netvirt.Vnetwork.Ids.{Members}
use netvirt.Switch.{World, unsecure}
use netvirt.Tests.Keys.{Bindings}

abbrev pub mac_a : List ℕ
mac_a = 2 ∷ 0 ∷ 0 ∷ 0 ∷ 0 ∷ 1 ∷ []

abbrev pub mac_b : List ℕ
mac_b = 2 ∷ 0 ∷ 0 ∷ 0 ∷ 0 ∷ 2 ∷ []

abbrev pub new_links : Linkst
new_links = record { adjacency_matrix = []; matrix_size = 0; upper_limit = 1024; timeout_sec = 300 }

-- identifiers 0 and 1 are in use
abbrev pub two_used : List ℕ
two_used = set_bit (set_bit (bitpool_new 1024) 0) 1

pub two_used-IsPool : IsPool max_node two_used
two_used-IsPool = set_bit-IsPool (set_bit-IsPool (bitpool_new-IsPool 1024 (omega arith)).0 0) 1

abbrev pub sessions : Heap
sessions p = record {
  state = authed;
  ip = [];
  cert_name = none;
  node_info = none;
  id = p;
  ip_local = p ∷ [];
  tun_mac_addr = if p == 1 then mac_a else mac_b;
  netc = 10 + p;
  vnetwork = 7;
  mac_addr = [];
  mac_list = [];
  next = if p == 1 then 2 else 0;
  prev = if p == 2 then 1 else 0;
}

abbrev pub network : Vnetwork Bindings
network = record {
  uuid = [];
  ftable = (mac_a, 1) ∷ (mac_b, 2) ∷ [];
  ctable = [];
  atable = [];
  active_node = 2;
  linkst = some new_links;
  bitpool = two_used;
  session_list = 1;
  access_session = 0;
}

abbrev pub world : World Bindings
world = record {
  sessions = sessions;
  networks = λ n. network;
  netcs = λ c. record { security_level = unsecure; host = c ∷ []; ext_ptr = 0 };
  find_uuid = λ uuid. 0;
  find_id = λ id. 0;
  out = [];
}

used_by_members : (s : ℕ) → mem s (1 ∷ 2 ∷ []) ≡ true → get_bit two_used (s - 1) ≡ 1
unfolding bitpool_new set_bit get_bit byte_bit byte_set
used_by_members zero i = absurd (ground arith)
used_by_members (suc zero) i = refl
used_by_members (suc (suc zero)) i = refl
used_by_members (suc (suc (suc s))) i = absurd (ground arith)

pub network-Lists : Lists sessions network (1 ∷ 2 ∷ [])
network-Lists = record {
  chain = (refl, omega arith, refl, (refl, omega arith, refl, refl));
  apart = refl;
  no_null = refl;
}

pub network-Members : Members sessions network (1 ∷ 2 ∷ [])
unfolding bitpool_new set_bit get_bit byte_bit byte_set
network-Members = record {
  lists = network-Lists;
  numbered = record {
    pool = two_used-IsPool;
    low = λ s i. ground arith;
    high = λ s i. ground arith;
    held = used_by_members;
    unique = λ s t i j e. e;
  };
}

pub new_links-IsValid : IsValid new_links
new_links-IsValid = record { rows = tt; size = refl; bounded = omega arith; word = omega arith }
