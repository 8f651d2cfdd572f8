-- ===== src/Examples/Channels.antt =====
-- A write through the channels of the store, a closing store, and two subscribers of the broker.
use mathlib.Core.List.{Sublist}
use ermine_tq.Prelude.{
  true, ◌≡◌, ◌+◌, ◌≤◌, suc, length, All, refl, none, some, List, [], ◌∷◌, arith,
}
use ermine_tq.Store.Models.{SseEvent, TaskEventType}
use ermine_tq.Store.WriteLoop.{
  result, store_closing, context_error, drains, exits, gives_up_waiting, sending, waiting, returned,
  Line, draining, exited, set_at, open_line, calls, sends, hears, serves, Reached, opens, goes,
}
use ermine_tq.Store.WriteLoop.Replies.{Tells, times, Reached-Tells}
use ermine_tq.Store.WriteLoop.Draining.{
  Later, now, after, IsTold, loop_steps, drained-IsTold, draining_ends,
}
use ermine_tq.Store.WriteLoop.Queueing.{IsQueued, Reached-IsQueued}
use ermine_tq.Api.Broker.{
  Move, emits, turns as fans, opens as joins, reads, new_broker, play, sent, sent_at, try_send,
  set_channel, deliver_to, run_turn,
}
use ermine_tq.Api.Streams.{emitted, sent-Sublist}
use ermine_tq.Api.Isolation.{without, sent-without}

-- A call of `write` that is answered: the states on the way.
abbrev line1 : Line
line1 = record open_line { phase = set_at 0 sending open_line.phase }

abbrev line2 : Line
line2 = record line1 { phase = set_at 0 waiting line1.phase; write_ch = 0 ∷ []; accepted = 0 ∷ [] }

abbrev line3 : Line
line3 = record line2 { write_ch = []; res = set_at 0 (some result) line2.res; executed = 0 ∷ [] }

abbrev line4 : Line
line4 = record line3 { phase = set_at 0 (returned result) line3.phase }

line2-Reached : Reached line2
unfolding set_at
line2-Reached = goes (goes opens (calls 0 refl)) (sends 0 refl (omega arith))

line4-Reached : Reached line4
unfolding set_at
line4-Reached = goes (goes line2-Reached (serves 0 [] refl refl)) (hears 0 result refl refl)

answered : line4.phase 0 ≡ returned result
unfolding set_at
answered = refl

Reached-Tells_example : Tells result (times 0 line4.executed)
Reached-Tells_example = Reached-Tells line4-Reached 0 result answered

Reached-IsQueued_example : IsQueued line2
Reached-IsQueued_example = Reached-IsQueued line2-Reached

-- The store closes while the call stands in the channel.
abbrev line5 : Line
line5 = record line2 { close_ch = true; loop = draining }

-- The drain answers the call and ends, while the caller gives up.
abbrev line6 : Line
line6 = record line5 { write_ch = []; res = set_at 0 (some store_closing) line5.res }

abbrev line7 : Line
line7 = record line6 { phase = set_at 0 (returned context_error) line6.phase }

abbrev line8 : Line
line8 = record line7 { loop = exited }

drained : Later line5 line8
unfolding set_at
drained =
    after (after (after now (drains 0 [] refl refl)) (gives_up_waiting 0 refl)) (exits refl refl)

drained-IsTold_example : All (IsTold line8) line5.write_ch × (line8.executed ≡ line5.executed)
drained-IsTold_example = drained-IsTold drained refl refl

draining_ends_example :
    loop_steps drained + length line5.accepted ≤ suc (length line5.write_ch + length line8.accepted)
draining_ends_example = draining_ends drained refl

-- Two subscribers, and one of them reads.
abbrev an_event : SseEvent
an_event = record { task_id = "t"; event = TaskEventType.started; detail = none; timestamp = 7 }

abbrev moves : List Move
moves = joins ∷ joins ∷ emits an_event ∷ fans ∷ reads 1 ∷ reads 0 ∷ []

reads_event : sent 0 moves new_broker ≡ an_event ∷ []
unfolding sent sent_at play run_turn deliver_to set_channel try_send
reads_event = refl

sent-Sublist_example : Sublist (sent 0 moves new_broker) (emitted moves)
sent-Sublist_example = sent-Sublist 0 moves

sent-without_example : sent 0 (without 1 moves) new_broker ≡ sent 0 moves new_broker
sent-without_example = sent-without 1 0 moves new_broker refl
