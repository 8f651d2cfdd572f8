-- ===== src/Api/Broker.antt =====
-- internal/api/broker.go, and the loop of HandleEvents in internal/api/events.go.
use ermine_tq.Prelude.{
  ℕ, suc, Bool, true, false, List, [], ◌∷◌, ◌++◌, length, ltb, ◌==◌, if◌then◌else◌,
}
use ermine_tq.Store.Models.{SseEvent}

abbrev pub broker_input_buf : ℕ
broker_input_buf = 256

abbrev pub sub_buf_size : ℕ
sub_buf_size = 64

-- A buffered Go channel, and whether the map `subs` holds it.
pub record Channel : Type 0 where
  pub buffer : List SseEvent
  pub subscribed : Bool

-- Channels are told apart by the number of the Subscribe that made them.
pub record Broker : Type 0 where
  pub input : List SseEvent
  pub channels : ℕ → Channel
  pub next : ℕ

abbrev pub no_channel : Channel
no_channel = record { buffer = []; subscribed = false }

abbrev pub new_broker : Broker
new_broker = record { input = []; channels = λ id. no_channel; next = 0 }

-- A `select` that sends to a channel of this capacity, with a `default` that drops the event.
unfoldable pub try_send : ℕ → SseEvent → List SseEvent → List SseEvent
try_send capacity ev buffer = if ltb (length buffer) capacity then buffer ++ ev ∷ [] else buffer

unfoldable pub set_channel : ℕ → Channel → (ℕ → Channel) → ℕ → Channel
set_channel id c channels j = if j == id then c else channels j

abbrev pub emit_event : SseEvent → Broker → Broker
emit_event ev b = record b { input = try_send broker_input_buf ev b.input }

abbrev pub subscribe : Broker → ℕ × Broker
subscribe b = (
  b.next,
  record b {
    channels = set_channel b.next (record { buffer = []; subscribed = true }) b.channels;
    next = suc b.next;
  },
)

abbrev pub unsubscribe : ℕ → Broker → Broker
unsubscribe id b = record b {
  channels = set_channel id (record (b.channels id) { subscribed = false }) b.channels;
}

unfoldable pub deliver_to : SseEvent → Channel → Channel
deliver_to ev c =
    if c.subscribed then record c { buffer = try_send sub_buf_size ev c.buffer } else c

abbrev pub fan_out : SseEvent → Broker → Broker
fan_out ev b = record b { channels = λ id. deliver_to ev (b.channels id) }

-- One turn of the goroutine's loop. It blocks on an empty channel.
abbrev pub turn_on : Broker → List SseEvent → Broker
turn_on b [] = b
turn_on b (ev ∷ rest) = fan_out ev (record b { input = rest })

unfoldable pub run_turn : Broker → Broker
run_turn b = turn_on b b.input

-- HandleEvents reads from its channel.
abbrev pub rest_of : List SseEvent → List SseEvent
rest_of [] = []
rest_of (ev ∷ evs) = evs

abbrev pub first_of : List SseEvent → List SseEvent
first_of [] = []
first_of (ev ∷ evs) = ev ∷ []

abbrev pub receive : ℕ → Broker → List SseEvent × Broker
receive id b =
    let c = b.channels id in
    (
      first_of c.buffer,
      record b { channels = set_channel id (record c { buffer = rest_of c.buffer }) b.channels },
    )

-- What the goroutines that share a broker do, in the order in which they get at it.
pub data Move : Type 0 where
  emits : SseEvent → Move
  turns : Move
  opens : Move
  closes : ℕ → Move
  reads : ℕ → Move

unfoldable pub play : Move → Broker → Broker
unfolding run_turn deliver_to set_channel try_send
play (emits ev) b = emit_event ev b
play turns b = run_turn b
play opens b = (subscribe b).1
play (closes id) b = unsubscribe id b
play (reads id) b = (receive id b).1

-- What the stream of a channel sends to its client at a move, and along moves.
unfoldable pub sent_at : ℕ → Move → Broker → List SseEvent
sent_at id (reads j) b = if id == j then (receive j b).0 else []
sent_at id _ b = []

abbrev pub play_all : List Move → Broker → Broker
play_all [] b = b
play_all (s ∷ ss) b = play_all ss (play s b)

unfoldable pub sent : ℕ → List Move → Broker → List SseEvent
unfolding sent_at
sent id [] b = []
sent id (s ∷ ss) b = sent_at id s b ++ sent id ss (play s b)
