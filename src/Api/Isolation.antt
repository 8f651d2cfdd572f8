-- ===== src/Api/Isolation.antt =====
-- A subscriber of internal/api/broker.go that does not read, and the others.
use ermine_tq.Prelude.{
  ℕ, suc, true, false, ◌≡◌, refl, ap, subst, List, [], ◌∷◌, ◌++◌, ◌==◌, if◌then◌else◌, Bool-cases,
  inl, inr, arith,
}
use ermine_tq.Store.Models.{SseEvent}
use ermine_tq.Api.Broker.{
  broker_input_buf, Channel, Broker, try_send, set_channel, deliver_to, run_turn, turn_on, rest_of,
  first_of, Move, emits, turns, opens, closes, reads, play, sent_at, sent,
}

-- Two brokers that differ at most in one channel.
record Agree (j : ℕ) (a b : Broker) : Type 0 where
  input : a.input ≡ b.input
  next : a.next ≡ b.next
  channel : (k : ℕ) → (k == j) ≡ false → a.channels k ≡ b.channels k

-- The moves without the reads of one stream.
abbrev pub without : ℕ → List Move → List Move
without j [] = []
without j (reads k ∷ ms) = let rest = without j ms in if k == j then rest else reads k ∷ rest
without j (emits ev ∷ ms) = emits ev ∷ without j ms
without j (turns ∷ ms) = turns ∷ without j ms
without j (opens ∷ ms) = opens ∷ without j ms
without j (closes k ∷ ms) = closes k ∷ without j ms

module _ (j : ℕ) where
  turn_on-Agree :
      (evs : List SseEvent) (a b : Broker) → Agree j a b → Agree j (turn_on a evs) (turn_on b evs)
  turn_on-Agree [] a b h = h
  turn_on-Agree (ev ∷ evs) a b h = record {
    input = refl;
    next = h.next;
    channel = λ k e. ap (deliver_to ev) (h.channel k e);
  }

  set-Agree :
      (id : ℕ) (f : Channel → Channel) (a b : Broker)
      → Agree j a b
      → (k : ℕ) → (k == j) ≡ false
      → set_channel id (f (a.channels id)) a.channels k
        ≡ set_channel id (f (b.channels id)) b.channels k
  unfolding set_channel
  set-Agree id f a b h k e = elim (Bool-cases (k == id)) [
    | inl p ↦
        let q : k ≡ id = ground arith in
        let r : (id == j) ≡ false = rw q at e in rw p (ap f (h.channel id r))
    | inr p ↦ rw p (h.channel k e)
  ]

  play-Agree : (m : Move) (a b : Broker) → Agree j a b → Agree j (play m a) (play m b)
  unfolding play run_turn set_channel
  play-Agree (emits ev) a b h = record {
    input = ap (try_send broker_input_buf ev) h.input;
    next = h.next;
    channel = h.channel;
  }
  play-Agree turns a b h =
      subst (λ evs. Agree j (turn_on a a.input) (turn_on b evs)) h.input
        (turn_on-Agree a.input a b h)
  play-Agree opens a b h = record {
    input = h.input;
    next = ap suc h.next;
    channel = λ k e.
        rw (h.next)
          (elim (Bool-cases (k == b.next)) [ inl p ↦ rw p refl | inr p ↦ rw p (h.channel k e) ]);
  }
  play-Agree (closes id) a b h = record {
    input = h.input;
    next = h.next;
    channel = set-Agree id (λ c. record c { subscribed = false }) a b h;
  }
  play-Agree (reads id) a b h = record {
    input = h.input;
    next = h.next;
    channel = set-Agree id (λ c. record c { buffer = rest_of c.buffer }) a b h;
  }

  -- A read of the channel itself is not seen elsewhere.
  reads-Agree : (a b : Broker) → Agree j a b → Agree j (play (reads j) a) b
  unfolding play set_channel
  reads-Agree a b h = record {
    input = h.input;
    next = h.next;
    channel = λ k e. rw e (h.channel k e);
  }

  sent_at-Agree :
      (id : ℕ) (m : Move) (a b : Broker)
      → (id == j) ≡ false
      → Agree j a b
      → sent_at id m a ≡ sent_at id m b
  unfolding sent_at
  sent_at-Agree id (reads k) a b e h = elim (Bool-cases (id == k)) [
    | inl p ↦
        let q : id ≡ k = ground arith in
        rw p (ap (λ c. first_of c.buffer) (h.channel k (rw q at e)))
    | inr p ↦ rw p refl
  ]
  sent_at-Agree id (emits ev) a b e h = refl
  sent_at-Agree id turns a b e h = refl
  sent_at-Agree id opens a b e h = refl
  sent_at-Agree id (closes k) a b e h = refl

  sent_at-other :
      (id k : ℕ) (b : Broker) → (id == j) ≡ false → (k == j) ≡ true → sent_at id (reads k) b ≡ []
  unfolding sent_at
  sent_at-other id k b e h = let p : (id == k) ≡ false = ground arith in rw p refl

  sent-Agree :
      (id : ℕ) (ms : List Move) (a b : Broker)
      → (id == j) ≡ false
      → Agree j a b
      → sent id (without j ms) b ≡ sent id ms a
  unfolding sent sent_at
  sent-Agree id [] a b e h = refl
  sent-Agree id (reads k ∷ ms) a b e h = elim (Bool-cases (k == j)) [
    | inl p ↦
        let q : k ≡ j = ground arith in
        rw (p, sent_at-other id k a e p)
          (sent-Agree id ms (play (reads k) a) b e (rw q (reads-Agree a b h)))
    | inr p ↦
        rw (p, sent_at-Agree id (reads k) a b e h)
          (ap (λ l. sent_at id (reads k) b ++ l)
            (sent-Agree id ms (play (reads k) a) (play (reads k) b) e (play-Agree (reads k) a b h)))
  ]
  sent-Agree id (emits ev ∷ ms) a b e h = sent-Agree id ms _ _ e (play-Agree (emits ev) a b h)
  sent-Agree id (turns ∷ ms) a b e h = sent-Agree id ms _ _ e (play-Agree turns a b h)
  sent-Agree id (opens ∷ ms) a b e h = sent-Agree id ms _ _ e (play-Agree opens a b h)
  sent-Agree id (closes k ∷ ms) a b e h = sent-Agree id ms _ _ e (play-Agree (closes k) a b h)

  -- For two channels that are not the same, what the stream of the one sends to its client does not
  -- depend on the reads of the other: it is the same if that stream never reads.
  pub sent-without :
      (id : ℕ) (ms : List Move) (b : Broker)
      → (id == j) ≡ false
      → sent id (without j ms) b ≡ sent id ms b
  sent-without id ms b e =
      sent-Agree id ms b b e (record { input = refl; next = refl; channel = λ k p. refl })
