-- ===== src/Tests/Handlers.antt =====
-- A third session asks to be let in, is admitted, and leaves.
use netvirt.Prelude.{
  ℕ, ◌+◌, ◌%◌, ◌-◌, ◌≡◌, ◌≢◌, refl, false, ◌==◌, ◌||◌, if◌then◌else◌, ℤ, pos, minus_one, List, [],
  ◌∷◌, ◌++◌, arith, replicate, take, Option, some, none, ◌⊎◌,
}
use netvirt.Prelude.Bytes.{u32_mod}
use netvirt.Links.{null}
use netvirt.Bitmap.{get_bit}
use netvirt.Tables.{ctable_find, ftable_find}
use netvirt.Linkst.Laws.{is_joined}
use netvirt.Session.{NodeInfo, authed, not_authed, wait_stepup}
use netvirt.Vnetwork.{Vnetwork}
use netvirt.Vnetwork.Ids.{Members}
use netvirt.Vnetwork.Same.{Members-same}
use netvirt.Cert.{copy_count, copy_network_id, nva, node, cn2node_info, altname2node_info}
use netvirt.Cert.Names.{altname2node_info_lem}
use netvirt.Switch.{
  World, Event, unsecure, secure_adh, send, status, auth_response, success, free_session,
  drop_connection,
}
use netvirt.Switch.Handlers.{
  Outcome, done, wild, endless, name_network, on_secure, join_network, auth_request, on_disconnect,
  net_disconnect, session_terminate,
}
use netvirt.Switch.Handlers.Admission.{peer_name, on_secure_admits, auth_request_waits}
use netvirt.Switch.Handlers.Joining.{on_secure_joins}
use netvirt.Switch.Handlers.Departure.{has_mac, on_disconnect_leaves}
use netvirt.Switch.Handlers.Faults.{
  on_disconnect_unlinked, session_terminate_frees_twice, auth_request_unsecure,
}
use netvirt.Tests.Keys.{Bindings, bindings}
use netvirt.Tests.Data.{sessions, network, world, network-Members, new_links, new_links-IsValid}
use netvirt.Tests.Network.{fifth_is_free}

abbrev uuid : List ℕ
uuid = replicate 36 b'a'

abbrev altname : Option (List ℕ)
altname = some (uuid ++ (b'@' ∷ uuid))

abbrev cert_name : List ℕ
cert_name = nva ++ (uuid ++ (b'@' ∷ b'4' ∷ []))

abbrev info : NodeInfo
info = record { uuid = uuid; network_uuid = uuid; network_id = []; v = 2 }

abbrev info₁ : NodeInfo
info₁ = record { uuid = uuid; network_uuid = []; network_id = b'4' ∷ []; v = 1 }

abbrev known_network : Vnetwork Bindings
known_network = record network { atable = (uuid, 1) ∷ [] }

-- Session 3 waits for its connection to be secured.
abbrev joining : World Bindings
joining = record world {
  sessions = λ p. record (sessions p) {
    state = if p == 3 then wait_stepup else authed;
    prev = if p == 2 then 1 else 0;
    node_info = some info;
  };
  networks = λ n. known_network;
  netcs = λ c. record { security_level = secure_adh; host = c ∷ []; ext_ptr = c - 10 };
}

-- It has not asked for anything yet, over a connection that is to be secured or not.
abbrev asking : World Bindings
asking = record joining {
  sessions = λ p. record (sessions p) { state = not_authed };
  find_id = λ id. 7;
}

abbrev asking_openly : World Bindings
asking_openly = record asking {
  netcs = λ c. record { security_level = unsecure; host = c ∷ []; ext_ptr = c - 10 };
}

abbrev world_of : Outcome (World Bindings) → World Bindings
world_of (done w) = w
world_of wild = world
world_of endless = world

abbrev answer_of : Outcome (ℤ × World Bindings) → World Bindings
answer_of (done (code, w)) = w
answer_of wild = world
answer_of endless = world

joining-Members : Members joining.sessions known_network (1 ∷ 2 ∷ [])
joining-Members =
    Members-same sessions joining.sessions network known_network (1 ∷ 2 ∷ []) network-Members
      (λ p. refl) (λ p. refl) (λ p. refl) refl refl

named : altname2node_info (uuid ++ (b'@' ∷ uuid)) ≡ node info
named = altname2node_info_lem uuid uuid refl refl

is_known : ctable_find bindings known_network.atable uuid ≢ null
unfolding ctable_find
is_known = omega arith

abbrev Joined : Type 0
Joined =
    (w' : World Bindings) × (on_secure bindings joining 3 altname none ≡ done w')
    × Members w'.sessions (w'.networks 7) (3 ∷ 1 ∷ 2 ∷ [])
    × ((w'.sessions 3).state ≡ authed)
    × (w'.out
        ≡ []
          ++ (status 1 [] (name_network info []).uuid (name_network info []).network_uuid
              ∷ send 13 (auth_response success)
              ∷ []))

on_secure_joins_example : Joined
on_secure_joins_example =
    on_secure_joins bindings joining (1 ∷ 2 ∷ []) 3 5 altname none info refl named is_known
      joining-Members (omega arith) refl refl (omega arith) fifth_is_free

joined : Joined
joined =
    on_secure_joins bindings joining (1 ∷ 2 ∷ []) 3 5 altname none info refl named is_known
      joining-Members (omega arith) refl refl (omega arith) fifth_is_free

on_secure_admits_example :
    ((joining.sessions 3).state ≡ authed)
    ⊎ (((joining.sessions 3).state ≡ wait_stepup)
        × (i : NodeInfo) × (peer_name altname none ≡ node i)
        × (ctable_find bindings known_network.atable i.uuid ≢ null))
on_secure_admits_example =
    on_secure_admits bindings joining joined.0 3 altname none joined.1 joined.3

abbrev answered : World Bindings
answered = answer_of (auth_request bindings asking 3 cert_name)

answers : auth_request bindings asking 3 cert_name ≡ done (pos 0, answered)
unfolding auth_request join_network cn2node_info copy_network_id copy_count
answers = refl

auth_request_waits_example :
    ((pos 0 ≡ pos 0) × ((answered.sessions 3).state ≡ wait_stepup))
    ⊎ ((pos 0 ≡ minus_one) × ((answered.sessions 3).state ≡ (asking.sessions 3).state))
auth_request_waits_example =
    auth_request_waits bindings asking answered 3 cert_name (pos 0) refl answers

named₁ : cn2node_info cert_name ≡ node info₁
unfolding cn2node_info copy_network_id copy_count
named₁ = refl

auth_request_unsecure_example :
    (w' : World Bindings) × (auth_request bindings asking_openly 3 cert_name ≡ done (pos 0, w'))
    × ((w'.sessions 3).state ≡ authed)
    × ((w'.networks 7).session_list ≡ 1)
    × ((w'.networks 7).bitpool ≡ known_network.bitpool)
    × ((p : ℕ)
        → ((w'.sessions p).next ≡ (sessions p).next)
          × ((w'.sessions p).prev ≡ (sessions p).prev)
          × ((w'.sessions p).id ≡ p))
auth_request_unsecure_example =
    auth_request_unsecure bindings asking_openly 3 cert_name info₁ refl refl named₁ (omega arith)

on_disconnect_leaves_example :
    (w' : World Bindings) × (on_disconnect bindings joining 11 ≡ done w')
    × Members w'.sessions (w'.networks 7) (2 ∷ [])
    × (get_bit (w'.networks 7).bitpool (1 - 1) ≡ 0)
    × ((mac : List ℕ)
        → ftable_find bindings (w'.networks 7).ftable mac
          ≡ (if has_mac bindings [] mac then null else ftable_find bindings network.ftable mac))
    × ((u : List ℕ)
        → ctable_find bindings (w'.networks 7).ctable u ≡ (
            if bindings.same_key (take 36 uuid) (take 36 u)
            then null
            else ctable_find bindings (joining.networks 7).ctable u))
    × ((w'.networks 7).active_node ≡ ((joining.networks 7).active_node + u32_mod - 1) % u32_mod)
    × ((p : ℕ) → p ≢ 7 → w'.networks p ≡ joining.networks p)
    × ((p : ℕ) → (w'.sessions p).id ≡ (joining.sessions p).id)
    × ((c d : ℕ)
        → is_joined (w'.networks 7).linkst c d
          ≡ (if c == 1 || d == 1 then false else is_joined (some new_links) c d))
    × (w'.out ≡ [] ++ (status 0 [] uuid uuid ∷ free_session 1 ∷ []))
on_disconnect_leaves_example =
    on_disconnect_leaves bindings joining 11 info (1 ∷ 2 ∷ []) new_links (omega arith) refl refl
      (omega arith) joining-Members refl refl new_links-IsValid

on_disconnect_unlinked_example :
    (w' : World Bindings) × (on_disconnect bindings joining 13 ≡ done w')
    × ((w'.networks 7).session_list ≡ null)
    × ((p : ℕ) → p ≢ 3 → w'.sessions p ≡ joining.sessions p)
on_disconnect_unlinked_example =
    on_disconnect_unlinked bindings joining 13 info (omega arith) refl refl (omega arith) refl refl

abbrev gone : World Bindings
gone = world_of (session_terminate bindings joining 1)

terminates : session_terminate bindings joining 1 ≡ done gone
unfolding session_terminate net_disconnect on_disconnect
terminates = refl

session_terminate_frees_twice_example :
    (es : List Event) × (gone.out
      ≡ es ++ (free_session 1 ∷ drop_connection 11 ∷ free_session 1 ∷ []))
session_terminate_frees_twice_example =
    session_terminate_frees_twice bindings joining gone 1 (omega arith) (omega arith) refl
      terminates
