-- ===== src/Ws/Hub/Tests.antt =====
-- The hub with two clients.
use go_backend_core.Prelude.{ℕ, ◌≡◌, refl, true, false, none, List, [], ◌∷◌, String, if◌then◌else◌}
use go_backend_core.Prelude.Equality.{◌==◌, nat_eq, string_eq}
use go_backend_core.Prelude.Dict.{read, write, delete}
use go_backend_core.Ws.Hub.{
  Client, Message, Hub, new_hub, register, unregister, broadcast_to_room, broadcast_all,
  send_to_client, Call, registers, unregisters, joins, broadcasts, step, run,
}
use go_backend_core.Ws.Hub.Membership.{IsConsistent}
use go_backend_core.Ws.Hub.Consistency.{run_hub-IsConsistent}
use go_backend_core.Ws.Hub.Silence.{unregister_silences}

abbrev client : String → Client
client id = record {
  id = id;
  user_id = "u";
  rooms = [];
  send = [];
  has_close = true;
  closed = false;
}

abbrev objects : ℕ → Client
objects p = if p == 0 then client "a" else client "b"

abbrev hello : Message
hello = record { room = "r"; user_id = ""; type = "chat"; payload = 1 ∷ [] }

abbrev calls : List Call
calls = registers 0 ∷ registers 1 ∷ joins "r" 0 ∷ joins "r" 1 ∷ broadcasts "r" hello ("a" ∷ []) ∷ []

abbrev reached : Hub ℕ
reached = run calls (new_hub objects)

run_hub-IsConsistent_example : IsConsistent reached
run_hub-IsConsistent_example = run_hub-IsConsistent objects calls

unregister_silences_example :
    ((room : String) (exclude : List String)
      → (broadcast_to_room room hello exclude (unregister 1 reached)).objects 1
        ≡ (unregister 1 reached).objects 1)
    × ((broadcast_all hello (unregister 1 reached)).objects 1 ≡ (unregister 1 reached).objects 1)
    × (send_to_client ((unregister 1 reached).objects 1).id hello (unregister 1 reached)
        ≡ (unregister 1 reached, false))
unregister_silences_example = unregister_silences objects calls 1 hello

-- An old connection that goes takes the entry of the new one of the same id with it.
both_gone :
    read "a"
      (run
        (registers 0 ∷ registers 2 ∷ unregisters 0 ∷ [])
        (new_hub {Handler = ℕ} (λ p. client "a"))).clients
    ≡ none
unfolding run step register unregister read write delete
both_gone = refl
