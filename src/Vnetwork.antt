-- ===== src/Vnetwork.antt =====
-- nvswitch/src/vnetwork.h and vnetwork.c: a virtual network of the switch, with its sessions as a
-- doubly linked list and an identifier of its bit pool for each.
pub mod Members
pub mod Numbers
pub mod Ids
pub mod Full
pub mod Same
use netvirt.Prelude.{ℕ, ◌+◌, ◌-◌, ◌*◌, ◌%◌, Bool, List, Option, ◌==◌, if◌then◌else◌, ℤ}
use netvirt.Prelude.Bytes.{u32_mod}
use netvirt.Links.{null}
use netvirt.Bitmap.{Alloc, full, stuck, allocated}
use netvirt.Bitpool.{bitpool_allocate_bit, bitpool_release_bit, bitpool_new}
use netvirt.Linkst.{Linkst, linkst_new}
use netvirt.Session.{Heap, set_next, set_prev, set_id}

abbrev pub max_node : ℕ
max_node = 1024

abbrev pub timeout_sec : ℕ
timeout_sec = 300

-- `struct vnetwork`, over the type of its tables. The trees that find it and the passport are
-- outside.
pub record Vnetwork (Table : Type 0) : Type 0 where
  pub uuid : List ℕ
  pub ftable : Table
  pub ctable : Table
  pub atable : Table
  pub active_node : ℕ
  pub linkst : Option Linkst
  pub bitpool : List ℕ
  pub session_list : ℕ
  pub access_session : ℕ

module _ {Table : Type 0} where
  -- The list half of `vnetwork_add_session`.
  unfoldable pub link_session : Heap → Vnetwork Table → ℕ → Heap × Vnetwork Table
  link_session h vnet session =
      if vnet.session_list == null
      then (set_prev (set_next h session null) session null, record vnet { session_list = session })
      else (
        set_prev (set_next h session vnet.session_list) vnet.session_list session,
        record vnet { session_list = session },
      )

  -- Its other half: `bitpool_allocate_bit` writes `session->id` if it succeeds, and its result is
  -- not looked at. A bit loop that does not end leaves no state, which `none` stands for.
  unfoldable pub number_session : Heap → Vnetwork Table → ℕ → Option (Heap × Vnetwork Table)
  number_session h vnet session = elim (bitpool_allocate_bit vnet.bitpool max_node) [
    | full ↦ Option.some (
      set_id h session (((h session).id + 1) % u32_mod),
      record vnet { active_node = (vnet.active_node + 1) % u32_mod },
    )
    | stuck ↦ Option.none
    | allocated bit bitpool ↦ Option.some (
      set_id h session ((bit + 1) % u32_mod),
      record vnet { active_node = (vnet.active_node + 1) % u32_mod; bitpool = bitpool },
    )
  ]

  unfoldable pub vnetwork_add_session : Heap → Vnetwork Table → ℕ → Option (Heap × Vnetwork Table)
  vnetwork_add_session h vnet session =
      let (h', vnet') = link_session h vnet session in number_session h' vnet' session

  -- The list half of `vnetwork_del_session`.
  unfoldable pub unlink_session : Heap → Vnetwork Table → ℕ → Heap × Vnetwork Table
  unlink_session h vnet session =
      let next = (h session).next in
      let prev = (h session).prev in
      if next == null
      then if prev == null
        then (h, record vnet { session_list = null })
        else (set_next h prev null, vnet)
      else if prev == null
      then (set_prev h next null, record vnet { session_list = next })
      else (let h' = set_next h prev next in set_prev h' (h' session).next (h' session).prev, vnet)

  -- `session->id-1` and `active_node--` wrap.
  unfoldable pub vnetwork_del_session : Heap → Vnetwork Table → ℕ → Heap × Vnetwork Table
  vnetwork_del_session h vnet session =
      let (h', vnet') = unlink_session h vnet session in
      (
        h',
        record vnet' {
          bitpool =
              (bitpool_release_bit vnet'.bitpool max_node
                (((h' session).id + u32_mod - 1) % u32_mod)).1;
          active_node = (vnet'.active_node + u32_mod - 1) % u32_mod;
        },
      )
