-- ===== src/Api/Hub.antt =====
-- internal/api/hub.go: the hub of event streams. A channel of a subscriber is a number; the goroutine of run
-- takes one of the cases that are ready, and the steps of others come between its turns in any order.
use logfort.Prelude.{
  ℕ, ◌+◌, ◌<◌, String, ◌≡◌, Bool, true, false, not, List, [], ◌∷◌, ◌++◌, ltb, eqb, if◌then◌else◌,
  length, select, any_where,
}

-- sub, unsub and pub are queues, the next to be taken first. `channels` is how many channels were made;
-- `buffers` and `closed` are their state, and `panicked` says that a closed one was closed or sent to.
pub record Hub : Type 0 where
  pub sub : List ℕ
  pub unsub : List ℕ
  pub pub_queue : List String
  pub quit : Bool
  pub running : Bool
  pub subscribers : List ℕ
  pub clients : ℕ
  pub channels : ℕ
  pub buffers : ℕ → List String
  pub closed : List ℕ
  pub panicked : Bool

abbrev pub sub_capacity : ℕ
sub_capacity = 16

abbrev pub pub_capacity : ℕ
pub_capacity = 256

abbrev pub channel_capacity : ℕ
channel_capacity = 32

abbrev pub new_hub : Hub
new_hub = record {
  sub = [];
  unsub = [];
  pub_queue = [];
  quit = false;
  running = true;
  subscribers = [];
  clients = 0;
  channels = 0;
  buffers = λ c. [];
  closed = [];
  panicked = false;
}

abbrev pub has : ℕ → List ℕ → Bool
has c cs = any_where (eqb c) cs

-- close(c).
unfoldable pub close_channel : ℕ → Hub → Hub
close_channel c h =
    if has c h.closed then record h { panicked = true } else record h { closed = c ∷ h.closed }

abbrev pub set_buffer : ℕ → List String → (ℕ → List String) → ℕ → List String
set_buffer c ms buffers d = if eqb c d then ms else buffers d

-- A send that is given up where the buffer is full.
unfoldable pub offer : String → ℕ → Hub → Hub
offer msg c h =
    if has c h.closed
    then record h { panicked = true }
    else if ltb (length (h.buffers c)) channel_capacity
    then record h { buffers = set_buffer c (h.buffers c ++ msg ∷ []) h.buffers }
    else h

-- The cases of run.
unfoldable pub on_sub : ℕ → Hub → Hub
on_sub c h =
    let cs = if has c h.subscribers then h.subscribers else c ∷ h.subscribers in
    record h { subscribers = cs; clients = length cs }

unfoldable pub on_unsub : ℕ → Hub → Hub
unfolding close_channel
on_unsub c h =
    let cs = select (λ d. not (eqb c d)) h.subscribers in
    if has c h.subscribers
    then record (close_channel c h) { subscribers = cs; clients = length cs }
    else record h { clients = length h.subscribers }

unfoldable pub offer_all : String → List ℕ → Hub → Hub
unfolding offer
offer_all msg [] h = h
offer_all msg (c ∷ cs) h = offer_all msg cs (offer msg c h)

unfoldable pub close_all : List ℕ → Hub → Hub
unfolding close_channel
close_all [] h = h
close_all (c ∷ cs) h = close_all cs (close_channel c h)

-- The goroutine ends, and its map of subscribers with it.
unfoldable pub on_quit : Hub → Hub
unfolding close_all
on_quit h = record (close_all h.subscribers h) { subscribers = []; clients = 0; running = false }

-- A step of the hub or of one that uses it; a send waits for room, and that of unsubscribe and publish may be
-- given up after quit, which changes nothing.
pub data Step : Hub → Hub → Type 0 where
  subscribes :
      {h : Hub}
      → length h.sub < sub_capacity
      → Step h (record h { sub = h.sub ++ h.channels ∷ []; channels = h.channels + 1 })
  unsubscribes :
      {h : Hub} (c : ℕ)
      → length h.unsub < sub_capacity
      → Step h (record h { unsub = h.unsub ++ c ∷ [] })
  publishes :
      {h : Hub} (msg : String)
      → length h.pub_queue < pub_capacity
      → Step h (record h { pub_queue = h.pub_queue ++ msg ∷ [] })
  closes : {h : Hub} → Step h (record h { quit = true })
  receives :
      {h : Hub} (c : ℕ) (msg : String) (ms : List String)
      → h.buffers c ≡ msg ∷ ms
      → Step h (record h { buffers = set_buffer c ms h.buffers })
  takes_sub :
      {h : Hub} (c : ℕ) (cs : List ℕ)
      → h.running ≡ true
      → h.sub ≡ c ∷ cs
      → Step h (on_sub c (record h { sub = cs }))
  takes_unsub :
      {h : Hub} (c : ℕ) (cs : List ℕ)
      → h.running ≡ true
      → h.unsub ≡ c ∷ cs
      → Step h (on_unsub c (record h { unsub = cs }))
  takes_pub :
      {h : Hub} (msg : String) (ms : List String)
      → h.running ≡ true
      → h.pub_queue ≡ msg ∷ ms
      → Step h (offer_all msg h.subscribers (record h { pub_queue = ms }))
  stops : {h : Hub} → h.running ≡ true → h.quit ≡ true → Step h (on_quit h)

pub data Steps : Hub → Hub → Type 0 where
  done : {h : Hub} → Steps h h
  then_step : {h i j : Hub} → Steps h i → Step i j → Steps h j
