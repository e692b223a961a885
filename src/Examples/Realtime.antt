-- ===== src/Examples/Realtime.antt =====
-- Two browsers, of which one leaves.
use naralabs_atlas.Prelude.{◌≡◌, refl, arith, true, false, none, some, List, [], ◌∷◌, text}
use naralabs_atlas.Realtime.Hub.{Client, Hub, new_hub, count, send_to}
use naralabs_atlas.Realtime.Hub.Steps.{
  Event, registers, unregisters, broadcasts, pumps, steps, IsHub, steps-IsHub, send_to_left,
}

abbrev events : List Event
events =
    registers (text "testnet")
    ∷ registers (text "mainnet")
    ∷ broadcasts (text "testnet") (some (text "hello"))
    ∷ unregisters 1
    ∷ pumps 0
    ∷ unregisters 1
    ∷ []

steps-IsHub_example : (h : Hub) × (steps events (new_hub 2) ≡ some h) × IsHub h
steps-IsHub_example = steps-IsHub 2 events

abbrev gone : Client
gone = record { network = text "mainnet"; queue = []; closed = true; registered = false }

abbrev hub : Hub
hub = record { max_clients = 2; clients = gone ∷ [] }

hub-IsHub : IsHub hub
unfolding count
hub-IsHub = record {
  all_clients = (record { open_in_map = refl; in_buffer = omega arith }, tt);
  not_too_many = omega arith;
}

send_to_left_example : send_to 0 (some (text "ping")) hub ≡ none
send_to_left_example = send_to_left hub 0 gone (text "ping") hub-IsHub refl refl
