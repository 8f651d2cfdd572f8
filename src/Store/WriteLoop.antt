-- ===== src/Store/WriteLoop.antt =====
-- internal/store/store.go: write, writeLoop and Close as they share the channels of the Store.
pub mod Replies
pub mod Queueing
pub mod Draining
use ermine_tq.Prelude.{
  ℕ, ◌<◌, Bool, true, false, ◌≡◌, Option, none, some, List, [], ◌∷◌, ◌++◌, length, ◌==◌,
  if◌then◌else◌,
}

-- What a caller of `write` gets, or the loop puts into its channel `res`: the outcome of the
-- transaction, ErrStoreClosing, or the error of the caller's context.
pub data WriteResult : Type 0 where
  result store_closing context_error : WriteResult

-- A caller stands before `write`, at its first select, at its second one, or has returned.
pub data Phase : Type 0 where
  idle sending waiting : Phase
  returned : WriteResult → Phase

pub data Loop : Type 0 where
  serving draining exited : Loop

-- Calls of `write` have numbers. `accepted` and `executed` are the calls that went into the channel
-- and those whose transaction was run, in the order of these events.
pub record Line : Type 0 where
  pub write_ch : List ℕ
  pub close_ch : Bool
  pub loop : Loop
  pub phase : ℕ → Phase
  pub res : ℕ → Option WriteResult
  pub accepted : List ℕ
  pub executed : List ℕ

abbrev pub write_capacity : ℕ
write_capacity = 64

unfoldable pub set_at {ℓ} : {A : Type ℓ} → ℕ → A → (ℕ → A) → ℕ → A
set_at i a f j = if j == i then a else f j

-- What Open makes.
abbrev pub open_line : Line
open_line = record {
  write_ch = [];
  close_ch = false;
  loop = serving;
  phase = λ i. idle;
  res = λ i. none;
  accepted = [];
  executed = [];
}

-- One event at the channels. A `select` may take any case that is ready.
pub data Event (s : Line) : Line → Type 0 where
  calls : (i : ℕ) → s.phase i ≡ idle → Event s (record s { phase = set_at i sending s.phase })
  -- The first select of `write`: the send, the end of the context, the closed channel.
  sends :
      (i : ℕ)
      → s.phase i ≡ sending
      → length s.write_ch < write_capacity
      → Event s (record s {
        phase = set_at i waiting s.phase;
        write_ch = s.write_ch ++ i ∷ [];
        accepted = s.accepted ++ i ∷ [];
      })
  gives_up_sending :
      (i : ℕ)
      → s.phase i ≡ sending
      → Event s (record s { phase = set_at i (returned context_error) s.phase })
  is_refused :
      (i : ℕ)
      → s.phase i ≡ sending
      → s.close_ch ≡ true
      → Event s (record s { phase = set_at i (returned store_closing) s.phase })
  -- The second select: the reply, the end of the context.
  hears :
      (i : ℕ) (o : WriteResult)
      → s.phase i ≡ waiting
      → s.res i ≡ some o
      → Event s (record s { phase = set_at i (returned o) s.phase })
  gives_up_waiting :
      (i : ℕ)
      → s.phase i ≡ waiting
      → Event s (record s { phase = set_at i (returned context_error) s.phase })
  -- writeLoop: a transaction, the start of the drain, a reply of the drain, the end.
  serves :
      (i : ℕ) (rest : List ℕ)
      → s.loop ≡ serving
      → s.write_ch ≡ i ∷ rest
      → Event s (record s {
        write_ch = rest;
        res = set_at i (some result) s.res;
        executed = s.executed ++ i ∷ [];
      })
  turns : s.loop ≡ serving → s.close_ch ≡ true → Event s (record s { loop = draining })
  drains :
      (i : ℕ) (rest : List ℕ)
      → s.loop ≡ draining
      → s.write_ch ≡ i ∷ rest
      → Event s (record s { write_ch = rest; res = set_at i (some store_closing) s.res })
  exits : s.loop ≡ draining → s.write_ch ≡ [] → Event s (record s { loop = exited })
  -- Close
  closes : Event s (record s { close_ch = true })

-- What can come of an opened store.
pub data Reached : Line → Type 0 where
  opens : Reached open_line
  goes : {s t : Line} → Reached s → Event s t → Reached t
