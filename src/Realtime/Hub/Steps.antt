-- ===== src/Realtime/Hub/Steps.antt =====
-- lib/realtime/hub.go: sequences of its operations.
use naralabs_atlas.Prelude.{
  ℕ, zero, suc, ◌+◌, ◌≡◌, ◌≤◌, ◌&&◌, refl, true, false, not, Option, none, some, List, [], ◌∷◌,
  ◌++◌, arith, Text, text_eq, ltb, leb, leb→lt, Bool-cases, inl, inr, length, get_elem?,
  length-append, All, All-get_elem?, if◌then◌else◌,
}
use naralabs_atlas.Realtime.Hub.{
  Client, Hub, new_hub, count, register, send, leave, deliver, for_all, at_index, with_clients,
  unregister, broadcast, send_to, close, receive, pump,
}

-- The calls that go through the map, and writePump.
pub data Event : Type 0 where
  registers : Text → Event
  unregisters : ℕ → Event
  broadcasts : Text → Option Text → Event
  pumps : ℕ → Event
  closes : Event

abbrev pub step : Event → Hub → Option Hub
step (registers network) h = some (register network h).1
step (unregisters i) h = unregister i h
step (broadcasts network msg) h = broadcast network msg h
step (pumps i) h = pump i h
step closes h = close h

abbrev pub bind : Option Hub → (Hub → Option Hub) → Option Hub
bind none f = none
bind (some h) f = f h

abbrev pub steps : List Event → Hub → Option Hub
steps [] h = some h
steps (e ∷ es) h = bind (step e h) (λ h. steps es h)

-- A client is in the map just while its channel is open, which holds at most 32 messages.
pub record IsClient (c : Client) : Type 0 where
  pub open_in_map : c.closed ≡ not c.registered
  pub in_buffer : length c.queue ≤ 32

pub record IsHub (h : Hub) : Type 0 where
  pub all_clients : All IsClient h.clients
  pub not_too_many : count h.clients ≤ h.max_clients

size : Client → ℕ
size c = if c.registered then 1 else 0

-- A step on a client that does not panic, and lets no client in.
abbrev Fine : (Client → Option Client) → Type 0
Fine f =
    (c : Client) → IsClient c → (c' : Client) × (f c ≡ some c') × IsClient c' × (size c' ≤ size c)

for_all_succeeds :
    (f : Client → Option Client)
    → Fine f
    → (cs : List Client) → All IsClient cs
    → (cs' : List Client) × (for_all f cs ≡ some cs') × All IsClient cs' × (count cs' ≤ count cs)
unfolding for_all count size
for_all_succeeds f fine [] a = ([], refl, tt, omega arith)
for_all_succeeds f fine (c ∷ cs) a =
    let (c', e, v, n) = fine c a.0 in
    let (cs', e', v', n') = for_all_succeeds f fine cs a.1 in
    (c' ∷ cs', rw (e, e'), (v, v'), omega arith)

at_index_succeeds :
    (f : Client → Option Client)
    → Fine f
    → (i : ℕ) (cs : List Client) → All IsClient cs
    → (cs' : List Client) × (at_index i f cs ≡ some cs') × All IsClient cs' × (count cs' ≤ count cs)
unfolding at_index count size
at_index_succeeds f fine i [] a = ([], refl, tt, omega arith)
at_index_succeeds f fine zero (c ∷ cs) a =
    let (c', e, v, n) = fine c a.0 in (c' ∷ cs, rw (e), (v, a.1), omega arith)
at_index_succeeds f fine (suc i) (c ∷ cs) a =
    let (cs', e', v', n') = at_index_succeeds f fine i cs a.1 in
    (c ∷ cs', rw (e'), (a.0, v'), omega arith)

leave-Fine : Fine leave
unfolding leave size
leave-Fine c v = elim (Bool-cases c.registered) [
  | inl inside ↦ (
    record c { registered = false; closed = true },
    ground (arith, v.open_in_map),
    record { open_in_map = refl; in_buffer = v.in_buffer },
    ground arith,
  )
  | inr outside ↦ (c, ground arith, v, omega arith)
]

send-fits : (msg : Text) (q : List Text) → ltb (length q) 32 ≡ true → length (q ++ msg ∷ []) ≤ 32
send-fits msg q h = rw (length-append q (msg ∷ [])) (ground arith)

deliver-Fine : (network msg : Text) → Fine (deliver network msg)
unfolding deliver size
deliver-Fine network msg c v = elim (Bool-cases (c.registered && text_eq c.network network)) [
  | inl wanted ↦ elim (Bool-cases (ltb (length c.queue) 32)) [
    | inl room ↦ (
      record c { queue = c.queue ++ msg ∷ [] },
      ground (arith, v.open_in_map),
      record { open_in_map = v.open_in_map; in_buffer = send-fits msg c.queue room },
      omega arith,
    )
    | inr full ↦ (c, ground (arith, v.open_in_map), v, omega arith)
  ]
  | inr other ↦ (c, ground arith, v, omega arith)
]

receive-Fine : Fine receive
unfolding receive size
receive-Fine c v = go c.queue refl
  where
    go :
        (q : List Text)
        → c.queue ≡ q
        → (c' : Client) × (receive c ≡ some c') × IsClient c' × (size c' ≤ size c)
    go [] e = (c, rw (e), v, omega arith)
    go (m ∷ ms) e = (
      record c { queue = ms },
      rw (e),
      record { open_in_map = v.open_in_map; in_buffer = ground (arith, v.in_buffer) },
      omega arith,
    )

abbrev Keeps : Option Hub → Type 0
Keeps r = (h' : Hub) × (r ≡ some h') × IsHub h'

with_clients-Keeps :
    (h : Hub) (cs : Option (List Client))
    → IsHub h
    → ((cs' : List Client) × (cs ≡ some cs') × All IsClient cs' × (count cs' ≤ count h.clients))
    → Keeps (with_clients h cs)
unfolding with_clients
with_clients-Keeps h cs v (cs', e, a, n) = (
  record h { clients = cs' },
  rw (e),
  record { all_clients = a; not_too_many = omega (arith, v.not_too_many) },
)

count-snoc : (cs : List Client) (c : Client) → count (cs ++ c ∷ []) ≤ count cs + 1
unfolding count
count-snoc [] c = ground arith
count-snoc (d ∷ cs) c = omega (arith, count-snoc cs c)

All-snoc :
    {A : Type 0} (P : A → Type 0) (xs : List A) (x : A) → All P xs → P x → All P (xs ++ x ∷ [])
All-snoc P [] x h p = (p, tt)
All-snoc P (y ∷ ys) x h p = (h.0, All-snoc P ys x h.1 p)

register-IsHub : (network : Text) (h : Hub) → IsHub h → IsHub (register network h).1
unfolding register
register-IsHub network h v = elim (Bool-cases (leb h.max_clients (count h.clients))) [
  | inl full ↦ simp (full, if◌then◌else◌) v
  | inr room ↦
      simp (room, if◌then◌else◌)
        (record {
          all_clients =
              All-snoc IsClient h.clients _ v.all_clients
                (record { open_in_map = refl; in_buffer = omega arith });
          not_too_many = omega (
            arith,
            count-snoc h.clients
                (record { network = network; queue = []; closed = false; registered = true }),
            leb→lt h.max_clients (count h.clients) room,
          );
        })
]

step-Keeps : (e : Event) (h : Hub) → IsHub h → Keeps (step e h)
unfolding unregister broadcast close pump
step-Keeps (registers network) h v = ((register network h).1, refl, register-IsHub network h v)
step-Keeps (unregisters i) h v =
    with_clients-Keeps h _ v (at_index_succeeds leave leave-Fine i h.clients v.all_clients)
step-Keeps (broadcasts network none) h v = (h, refl, v)
step-Keeps (broadcasts network (some msg)) h v =
    with_clients-Keeps h _ v
      (for_all_succeeds (deliver network msg) (deliver-Fine network msg) h.clients v.all_clients)
step-Keeps (pumps i) h v =
    with_clients-Keeps h _ v (at_index_succeeds receive receive-Fine i h.clients v.all_clients)
step-Keeps closes h v =
    with_clients-Keeps h _ v (for_all_succeeds leave leave-Fine h.clients v.all_clients)

steps-Keeps : (es : List Event) (h : Hub) → IsHub h → Keeps (steps es h)
steps-Keeps [] h v = (h, refl, v)
steps-Keeps (e ∷ es) h v =
    let (h', at_h', v') = step-Keeps e h v in
    let (h'', at_h'', v'') = steps-Keeps es h' v' in (h'', rw (at_h') at_h'', v'')

-- From a new hub, Register, Unregister, Broadcast, Close and the writePumps never panic, whatever their order. At
-- each time the hub has at most `max_clients` clients in its map, those are the ones whose channel is open,
-- and no channel holds more than 32 messages.
pub steps-IsHub :
    (max : ℕ) (es : List Event) → (h : Hub) × (steps es (new_hub max) ≡ some h) × IsHub h
unfolding new_hub count
steps-IsHub max es =
    steps-Keeps es (new_hub max) (record { all_clients = tt; not_too_many = omega arith })

at_index_panics :
    (f : Client → Option Client) (i : ℕ) (cs : List Client) (c : Client)
    → get_elem? cs i ≡ some c
    → f c ≡ none
    → at_index i f cs ≡ none
unfolding at_index
at_index_panics f i [] c g e = cc
at_index_panics f zero (d ∷ cs) c g e = let same : d ≡ c = ground arith in rw (same, e)
at_index_panics f (suc i) (d ∷ cs) c g e = rw (at_index_panics f i cs c g e)

-- In a hub that keeps to its rules, SendTo to a client that has left the map panics.
pub send_to_left :
    (h : Hub) (i : ℕ) (c : Client) (msg : Text)
    → IsHub h
    → get_elem? h.clients i ≡ some c
    → c.registered ≡ false
    → send_to i (some msg) h ≡ none
unfolding send_to send
send_to_left h i c msg v g out =
    let k = All-get_elem? IsClient h.clients i c v.all_clients g in
    rw (at_index_panics (send msg) i h.clients c g (ground (arith, k.open_in_map)))
