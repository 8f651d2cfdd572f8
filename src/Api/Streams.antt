-- ===== src/Api/Streams.antt =====
-- What the subscribers of internal/api/broker.go get to see.
use mathlib.Core.List.{Sublist, append_assoc, append-nil}
use mathlib.Core.List.Sublist
use ermine_tq.Prelude.{
  ℕ, ◌≡◌, refl, sym, ap, subst, ◌∙◌, List, [], ◌∷◌, ◌++◌, length, ltb, ◌==◌, Bool-cases, inl, inr,
  arith,
}
use ermine_tq.Store.Models.{SseEvent}
use ermine_tq.Api.Broker.{
  broker_input_buf, Channel, Broker, new_broker, try_send, set_channel, deliver_to, run_turn,
  turn_on, rest_of, first_of, Move, emits, turns, opens, closes, reads, play, sent_at, sent,
}

-- The events that the store emits along the moves.
abbrev pub emitted : List Move → List SseEvent
emitted [] = []
emitted (emits ev ∷ ss) = ev ∷ emitted ss
emitted (turns ∷ ss) = emitted ss
emitted (opens ∷ ss) = emitted ss
emitted (closes id ∷ ss) = emitted ss
emitted (reads id ∷ ss) = emitted ss

-- A send keeps what is there, and adds at most the event.
try_send-sublist :
    (n : ℕ) (ev : SseEvent) (buffer : List SseEvent)
    → Sublist (try_send n ev buffer) (buffer ++ ev ∷ [])
unfolding try_send
try_send-sublist n ev buffer = elim (Bool-cases (ltb (length buffer) n)) [
  | inl b ↦ rw b (Sublist.refl _)
  | inr b ↦ rw b (
      subst (λ l. Sublist l (buffer ++ ev ∷ [])) (append-nil buffer)
        (Sublist.append (Sublist.refl buffer) (Sublist.cons ev (Sublist.refl []))))
]

first_rest : (evs : List SseEvent) → first_of evs ++ rest_of evs ≡ evs
first_rest [] = refl
first_rest (ev ∷ evs) = refl

module _ (id : ℕ) where
  -- What may still reach the client of a channel.
  abbrev ahead : Broker → List SseEvent → List SseEvent
  ahead b later = (b.channels id).buffer ++ (b.input ++ later)

  deliver_to-sublist :
      (ev : SseEvent) (c : Channel) → Sublist (deliver_to ev c).buffer (c.buffer ++ ev ∷ [])
  unfolding deliver_to
  deliver_to-sublist ev c = elim (Bool-cases c.subscribed) [
    | inl b ↦ rw b (try_send-sublist _ ev c.buffer)
    | inr b ↦ rw b (
        subst (λ l. Sublist l (c.buffer ++ ev ∷ [])) (append-nil c.buffer)
          (Sublist.append (Sublist.refl c.buffer) (Sublist.cons ev (Sublist.refl []))))
  ]

  turn_on-sublist :
      (b : Broker) (input later : List SseEvent)
      → Sublist
          (ahead (turn_on (record b { input = input }) input) later)
          ((b.channels id).buffer ++ (input ++ later))
  turn_on-sublist b [] later = Sublist.refl _
  turn_on-sublist b (ev ∷ rest) later =
      subst (Sublist _) (append_assoc (b.channels id).buffer (ev ∷ []) (rest ++ later))
        (Sublist.append (deliver_to-sublist ev (b.channels id)) (Sublist.refl (rest ++ later)))

  same_buffer :
      (j : ℕ) (c : Channel) (channels : ℕ → Channel)
      → c.buffer ≡ (channels j).buffer
      → (set_channel j c channels id).buffer ≡ (channels id).buffer
  unfolding set_channel
  same_buffer j c channels h = elim (Bool-cases (id == j)) [
    | inl b ↦ let e : id ≡ j = ground arith in rw b (h ∙ ap (λ k. (channels k).buffer) (sym e))
    | inr b ↦ rw b refl
  ]

  no_event : (evs : List SseEvent) → Sublist [] evs
  no_event [] = Sublist.refl []
  no_event (ev ∷ evs) = Sublist.cons ev (no_event evs)

  opened_buffer :
      (b : Broker) (later : List SseEvent) → Sublist (ahead (play opens b) later) (ahead b later)
  unfolding play set_channel
  opened_buffer b later = elim (Bool-cases (id == b.next)) [
    | inl e ↦ rw e (Sublist.append (no_event (b.channels id).buffer) (Sublist.refl _))
    | inr e ↦ rw e (Sublist.refl _)
  ]

  read_buffer :
      (j : ℕ) (b : Broker) (later : List SseEvent)
      → sent_at id (reads j) b ++ ahead (play (reads j) b) later ≡ ahead b later
  unfolding play set_channel sent_at
  read_buffer j b later = elim (Bool-cases (id == j)) [
    | inl h ↦
        let e : j ≡ id = ground arith in
        rw (h, e)
          (sym (
              append_assoc (first_of (b.channels id).buffer) (rest_of (b.channels id).buffer)
                (b.input ++ later))
            ∙ ap (λ l. l ++ (b.input ++ later)) (first_rest (b.channels id).buffer))
    | inr h ↦ rw h refl
  ]

  emit-sublist :
      (ev : SseEvent) (b : Broker) (later : List SseEvent)
      → Sublist (try_send broker_input_buf ev b.input ++ later) (b.input ++ ev ∷ later)
  emit-sublist ev b later =
      subst (Sublist _) (append_assoc b.input (ev ∷ []) later)
        (Sublist.append (try_send-sublist _ ev b.input) (Sublist.refl later))

  turn-sublist :
      (b : Broker) (later : List SseEvent) → Sublist (ahead (play turns b) later) (ahead b later)
  unfolding play run_turn
  turn-sublist b later = turn_on-sublist b b.input later

  closed_buffer :
      (j : ℕ) (b : Broker) (later : List SseEvent) → ahead (play (closes j) b) later ≡ ahead b later
  unfolding play
  closed_buffer j b later = ap (λ l. l ++ (b.input ++ later)) (same_buffer j _ b.channels refl)

  sent-sublist : (ms : List Move) (b : Broker) → Sublist (sent id ms b) (ahead b (emitted ms))
  unfolding sent sent_at play
  sent-sublist [] b = no_event _
  sent-sublist (emits ev ∷ ms) b =
      Sublist.trans (sent-sublist ms (play (emits ev) b))
        (Sublist.append (Sublist.refl (b.channels id).buffer) (emit-sublist ev b (emitted ms)))
  sent-sublist (turns ∷ ms) b =
      Sublist.trans (sent-sublist ms (play turns b)) (turn-sublist b (emitted ms))
  sent-sublist (opens ∷ ms) b =
      Sublist.trans (sent-sublist ms (play opens b)) (opened_buffer b (emitted ms))
  sent-sublist (closes j ∷ ms) b =
      subst (Sublist _) (closed_buffer j b (emitted ms)) (sent-sublist ms (play (closes j) b))
  sent-sublist (reads j ∷ ms) b =
      subst (Sublist _) (read_buffer j b (emitted ms)) (
        Sublist.append (Sublist.refl (sent_at id (reads j) b)) (sent-sublist ms (play (reads j) b)))

  -- What the stream of a channel sends to its client, from the start of a broker on, are events that
  -- the store emitted, each at most as often, and in the order in which it emitted them.
  pub sent-Sublist : (ms : List Move) → Sublist (sent id ms new_broker) (emitted ms)
  sent-Sublist ms = sent-sublist ms new_broker
