-- ===== src/Vnetwork/Same.antt =====
-- What the membership of a network depends on: links, identifiers, list head and pool.
use netvirt.Prelude.{ℕ, ◌≡◌, List}
use netvirt.Links.{null, Chain-same}
use netvirt.Session.{Heap}
use netvirt.Vnetwork.{Vnetwork}
use netvirt.Vnetwork.Numbers.{Numbered-same}
use netvirt.Vnetwork.Ids.{Members}

pub Members-same :
    {Table : Type 0} (h h' : Heap) (vnet vnet' : Vnetwork Table) (xs : List ℕ)
    → Members h vnet xs
    → ((p : ℕ) → (h' p).id ≡ (h p).id)
    → ((p : ℕ) → (h' p).next ≡ (h p).next)
    → ((p : ℕ) → (h' p).prev ≡ (h p).prev)
    → vnet'.session_list ≡ vnet.session_list
    → vnet'.bitpool ≡ vnet.bitpool
    → Members h' vnet' xs
Members-same h h' vnet vnet' xs m id next prev head pool = record {
  lists = record {
    chain =
        rw head
          (Chain-same _ _ _ _ null vnet.session_list xs m.lists.chain (λ a i. (next a, prev a)));
    apart = m.lists.apart;
    no_null = m.lists.no_null;
  };
  numbered = rw pool (Numbered-same h h' vnet.bitpool xs id m.numbered);
}
