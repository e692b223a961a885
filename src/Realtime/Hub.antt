-- ===== src/Realtime/Hub.antt =====
-- lib/realtime/hub.go. A client stays in `clients` after it has left the map of the hub, since its channel is
-- still there; `registered` says whether it is in the map. Every step runs under the hub's lock, save for SendTo and
-- writePump. A runtime panic is `none`. Encoding is outside: `none` is a message that json.Marshal refused.
pub mod Steps
use naralabs_atlas.Prelude.{
  ℕ, zero, suc, ◌+◌, ◌&&◌, Bool, true, false, not, Option, none, some, List, [], ◌∷◌, ◌++◌, Text,
  text_eq, ltb, leb, length, pos_i64, if◌then◌else◌,
}

-- `queue` is what the channel `send` holds, and `closed` whether it is closed.
pub record Client : Type 0 where
  pub network : Text
  pub queue : List Text
  pub closed : Bool
  pub registered : Bool

pub record Hub : Type 0 where
  pub max_clients : ℕ
  pub clients : List Client

-- NewHub, of an int64 pattern
pub new_hub : ℕ → Hub
new_hub max = record { max_clients = if pos_i64 max then max else 500; clients = [] }

-- len(h.clients)
unfoldable pub count : List Client → ℕ
count [] = 0
count (c ∷ cs) = (if c.registered then 1 else 0) + count cs

-- Register; the answer is the index of the new client, or ErrTooManyClients as `none`.
pub register : Text → Hub → Option ℕ × Hub
register network h = if leb h.max_clients (count h.clients) then (none, h) else (
  some (length h.clients),
  record h {
    clients =
        h.clients
        ++ record { network = network; queue = []; closed = false; registered = true } ∷ [];
  },
)

-- close(c.send), which panics on a closed channel
close_channel : Client → Option Client
close_channel c = if c.closed then none else some (record c { closed = true })

-- select { case c.send <- msg: default: }, which panics on a closed channel
send : Text → Client → Option Client
send msg c =
    if c.closed
    then none
    else some (if ltb (length c.queue) 32 then record c { queue = c.queue ++ msg ∷ [] } else c)

-- delete(h.clients, c); close(c.send), for a client that is in the map
leave : Client → Option Client
unfolding close_channel
leave c = if c.registered then close_channel (record c { registered = false }) else some c

-- The body of Broadcast's loop.
deliver : Text → Text → Client → Option Client
unfolding send
deliver network msg c = if c.registered && text_eq c.network network then send msg c else some c

cons : Client → Option (List Client) → Option (List Client)
cons c none = none
cons c (some cs) = some (c ∷ cs)

and_then : Option Client → (Client → Option (List Client)) → Option (List Client)
and_then none f = none
and_then (some c) f = f c

-- The loop over the clients.
pub for_all : (Client → Option Client) → List Client → Option (List Client)
unfolding cons and_then
for_all f [] = some []
for_all f (c ∷ cs) = and_then (f c) (λ c'. cons c' (for_all f cs))

-- A step on the client with an index
pub at_index : ℕ → (Client → Option Client) → List Client → Option (List Client)
unfolding cons and_then
at_index i f [] = some []
at_index zero f (c ∷ cs) = and_then (f c) (λ c'. some (c' ∷ cs))
at_index (suc i) f (c ∷ cs) = cons c (at_index i f cs)

pub with_clients : Hub → Option (List Client) → Option Hub
with_clients h none = none
with_clients h (some cs) = some (record h { clients = cs })

-- Unregister
pub unregister : ℕ → Hub → Option Hub
unfolding leave at_index with_clients
unregister i h = with_clients h (at_index i leave h.clients)

-- Broadcast
pub broadcast : Text → Option Text → Hub → Option Hub
unfolding deliver for_all with_clients
broadcast network none h = some h
broadcast network (some msg) h = with_clients h (for_all (deliver network msg) h.clients)

-- SendTo, which does not ask whether the client is in the map
pub send_to : ℕ → Option Text → Hub → Option Hub
unfolding send at_index with_clients
send_to i none h = some h
send_to i (some msg) h = with_clients h (at_index i (send msg) h.clients)

-- Close
pub close : Hub → Option Hub
unfolding leave for_all with_clients
close h = with_clients h (for_all leave h.clients)

-- A message that writePump takes from the channel
receive : Client → Option Client
receive c = elim c.queue [ [] ↦ some c | m ∷ ms ↦ some (record c { queue = ms }) ]

pub pump : ℕ → Hub → Option Hub
unfolding receive at_index with_clients
pump i h = with_clients h (at_index i receive h.clients)
