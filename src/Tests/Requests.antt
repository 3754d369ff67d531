-- ===== src/Tests/Requests.antt =====
-- The three requests of an agent to the switch of `Tests.Data`.
use netvirt.Prelude.{ℕ, ◌≡◌, refl, List, [], ◌∷◌, some}
use netvirt.Dnds.Types.{DndsMessage}
use netvirt.Agent.Messages.{netinfo_request_message, prov_request_message, auth_request_message}
use netvirt.Switch.Handlers.{Outcome, done, auth_request, prov_request, handle_netinfo_request}
use netvirt.Switch.Input.{and_then, on_input}
use netvirt.Switch.Input.Requests.{requests_handled}
use netvirt.Tests.Keys.{Bindings, bindings}
use netvirt.Tests.Codec.{inet}
use netvirt.Tests.Data.{sessions, world}
use netvirt.Switch.{World, unsecure}
use netvirt.Session.{not_authed}

abbrev ip : List ℕ
ip = 10 ∷ 0 ∷ 0 ∷ 7 ∷ []

abbrev hw : List ℕ
hw = 2 ∷ 0 ∷ 0 ∷ 0 ∷ 0 ∷ 7 ∷ []

abbrev name : List ℕ
name = 110 ∷ 118 ∷ 97 ∷ []

-- Session 1 has come by connection 11, and has not been authenticated.
abbrev asked_world : World Bindings
asked_world = record world {
  sessions = λ p. record (sessions p) { state = not_authed };
  netcs = λ c. record { security_level = unsecure; host = c ∷ []; ext_ptr = 1 };
}

requests_handled_example :
    (reg : DndsMessage) × (prov : DndsMessage) × (info : DndsMessage) × (ip' : List ℕ)
    × (auth_request_message name ≡ some reg)
    × (prov_request_message name ≡ some prov)
    × (netinfo_request_message inet ip hw ≡ some info)
    × (inet.inet_pton ip' ≡ some ip)
    × (on_input bindings inet 9 asked_world 11 ((reg, 5, 6) ∷ [])
        ≡ and_then
            (auth_request bindings asked_world (asked_world.netcs 11).ext_ptr name)
            (λ r. Outcome.done r.1))
    × (on_input bindings inet 9 asked_world 11 ((prov, 5, 6) ∷ [])
        ≡ done (prov_request bindings asked_world (asked_world.netcs 11).ext_ptr name))
    × (on_input bindings inet 9 asked_world 11 ((info, 5, 6) ∷ [])
        ≡ done (handle_netinfo_request bindings asked_world (asked_world.netcs 11).ext_ptr ip' hw))
requests_handled_example =
    requests_handled bindings inet asked_world 11 9 5 6 name name ip ip hw refl refl refl refl
