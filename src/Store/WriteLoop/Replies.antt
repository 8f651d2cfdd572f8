-- ===== src/Store/WriteLoop/Replies.antt =====
-- What a caller of `write` (internal/store/store.go) can conclude from its reply.
use ermine_tq.Prelude.{
  ℕ, suc, ◌+◌, ◌≤◌, true, false, ◌≡◌, refl, sym, subst, Option, none, some, List, [], ◌∷◌, ◌++◌,
  ◌==◌, Bool-cases, inl, inr, arith, to_ℕ, count_where, count-append_one,
}
use ermine_tq.Store.WriteLoop.{
  WriteResult, result, store_closing, context_error, Phase, idle, sending, waiting, returned, Line,
  set_at, Event, calls, sends, gives_up_sending, is_refused, hears, gives_up_waiting, serves, turns,
  drains, exits, closes, Reached, opens, goes,
}

abbrev pub times : ℕ → List ℕ → ℕ
times i = count_where (λ j. j == i)

-- How the phase of a call, its channel `res`, its places in `write_ch` and the runs of its
-- transaction fit together.
data Fits : Phase → Option WriteResult → ℕ → ℕ → Type 0 where
  unused : Fits idle none 0 0
  started : Fits sending none 0 0
  queued : Fits waiting none 1 0
  ran : Fits waiting (some result) 0 1
  dropped : Fits waiting (some store_closing) 0 0
  told_ran : Fits (returned result) (some result) 0 1
  told_dropped : Fits (returned store_closing) (some store_closing) 0 0
  refused : Fits (returned store_closing) none 0 0
  left : Fits (returned context_error) none 0 0
  left_queued : Fits (returned context_error) none 1 0
  left_ran : Fits (returned context_error) (some result) 0 1
  left_dropped : Fits (returned context_error) (some store_closing) 0 0

record Fit (s : Line) : Type 0 where
  at : (i : ℕ) → Fits (s.phase i) (s.res i) (times i s.write_ch) (times i s.executed)

send-Fits : {o : Option WriteResult} {q n : ℕ} → Fits sending o q n → Fits waiting o (q + 1) n
send-Fits started = queued

leave-Fits :
    {o : Option WriteResult} {q n : ℕ} → Fits sending o q n → Fits (returned context_error) o q n
leave-Fits started = left

refuse-Fits :
    {o : Option WriteResult} {q n : ℕ} → Fits sending o q n → Fits (returned store_closing) o q n
refuse-Fits started = refused

call-Fits : {o : Option WriteResult} {q n : ℕ} → Fits idle o q n → Fits sending o q n
call-Fits unused = started

hear-Fits : {o : WriteResult} {q n : ℕ} → Fits waiting (some o) q n → Fits (returned o) (some o) q n
hear-Fits ran = told_ran
hear-Fits dropped = told_dropped

abandon-Fits :
    {o : Option WriteResult} {q n : ℕ} → Fits waiting o q n → Fits (returned context_error) o q n
abandon-Fits queued = left_queued
abandon-Fits ran = left_ran
abandon-Fits dropped = left_dropped

serve-Fits :
    {p : Phase} {o : Option WriteResult} {q n : ℕ}
    → Fits p o (suc q) n
    → Fits p (some result) q (n + 1)
serve-Fits queued = ran
serve-Fits left_queued = left_ran

drain-Fits :
    {p : Phase} {o : Option WriteResult} {q n : ℕ}
    → Fits p o (suc q) n
    → Fits p (some store_closing) q n
drain-Fits queued = dropped
drain-Fits left_queued = left_dropped

-- A call whose phase alone changes.
phase-Fit :
    (s : Line) (k : ℕ) (p q : Phase)
    → s.phase k ≡ p
    → (Fits p (s.res k) (times k s.write_ch) (times k s.executed)
        → Fits q (s.res k) (times k s.write_ch) (times k s.executed))
    → Fit s
    → Fit (record s { phase = set_at k q s.phase })
unfolding set_at
phase-Fit s k p q e f h = record {
  at = λ j. elim (Bool-cases (j == k)) [
    | inl b ↦
        let i : j ≡ k = ground arith in
        rw (b, i)
          (f (subst (λ x. Fits x (s.res k) (times k s.write_ch) (times k s.executed)) e (h.at k)))
    | inr b ↦ rw b (h.at j)
  ];
}

times-append : (j i : ℕ) (xs : List ℕ) → times j (xs ++ i ∷ []) ≡ times j xs + to_ℕ (i == j)
times-append j i xs = count-append_one _ xs i

times-cons : (j i : ℕ) (xs : List ℕ) → times j (i ∷ xs) ≡ to_ℕ (i == j) + times j xs
unfolding count_where
times-cons j i xs = ground arith

eq_self : (i : ℕ) → (i == i) ≡ true
eq_self i = ground arith

eq_flip : (i j : ℕ) → (j == i) ≡ false → (i == j) ≡ false
eq_flip i j h = ground arith

-- What is left of the channel after its first call was taken.
took :
    (s : Line) (i : ℕ) (rest : List ℕ) (o : Option WriteResult) (log : List ℕ)
    → s.write_ch ≡ i ∷ rest
    → ((q : ℕ)
        → Fits (s.phase i) (s.res i) (suc q) (times i s.executed)
        → Fits (s.phase i) o q (times i log))
    → ((j : ℕ) → (i == j) ≡ false → times j log ≡ times j s.executed)
    → Fit s
    → Fit (record s { write_ch = rest; res = set_at i o s.res; executed = log })
unfolding set_at
took s i rest o log e f g h = record {
  at = λ j. elim (Bool-cases (j == i)) [
    | inl b ↦
        let p : j ≡ i = ground arith in
        let c : times i s.write_ch ≡ suc (times i rest) =
          rw (e, times-cons i i rest, eq_self i) (omega arith) in
        rw (b, p)
          (f (times i rest)
            (subst (λ n. Fits (s.phase i) (s.res i) n (times i s.executed)) c (h.at i)))
    | inr b ↦
        let c : times j s.write_ch ≡ times j rest =
          rw (e, times-cons j i rest, eq_flip i j b) (omega arith) in
        rw (b, g j (eq_flip i j b))
          (subst (λ n. Fits (s.phase j) (s.res j) n (times j s.executed)) c (h.at j))
  ];
}

Event-Fit : {s t : Line} → Event s t → Fit s → Fit t
unfolding set_at
Event-Fit {s} (calls i e) h = phase-Fit s i idle sending e call-Fits h
Event-Fit {s} (gives_up_sending i e) h =
    phase-Fit s i sending (returned context_error) e leave-Fits h
Event-Fit {s} (is_refused i e c) h = phase-Fit s i sending (returned store_closing) e refuse-Fits h
Event-Fit {s} (hears i o e r) h =
    phase-Fit s i waiting (returned o) e
      (λ f.
        subst (λ x. Fits (returned o) x (times i s.write_ch) (times i s.executed)) (sym r)
          (hear-Fits (subst (λ x. Fits waiting x (times i s.write_ch) (times i s.executed)) r f)))
      h
Event-Fit {s} (gives_up_waiting i e) h =
    phase-Fit s i waiting (returned context_error) e abandon-Fits h
Event-Fit {s} (sends i e room) h = record {
  at = λ j. elim (Bool-cases (j == i)) [
    | inl b ↦
        let p : j ≡ i = ground arith in
        rw (b, p, times-append i i s.write_ch, eq_self i)
          (send-Fits
            (subst (λ x. Fits x (s.res i) (times i s.write_ch) (times i s.executed)) e (h.at i)))
    | inr b ↦
        let c : times j s.write_ch ≡ times j (s.write_ch ++ i ∷ []) =
          rw (times-append j i s.write_ch, eq_flip i j b) (omega arith) in
        rw b (subst (λ n. Fits (s.phase j) (s.res j) n (times j s.executed)) c (h.at j))
  ];
}
Event-Fit {s} (serves i rest l e) h =
    took s i rest (some result) (s.executed ++ i ∷ []) e
      (λ q f. rw (times-append i i s.executed, eq_self i) (serve-Fits f))
      (λ j b. rw (times-append j i s.executed, b) (omega arith)) h
Event-Fit (turns l c) h = record { at = h.at }
Event-Fit {s} (drains i rest l e) h =
    took s i rest (some store_closing) s.executed e (λ q f. drain-Fits f) (λ j b. refl) h
Event-Fit (exits l q) h = record { at = h.at }
Event-Fit closes h = record { at = h.at }

Reached-Fit : {s : Line} → Reached s → Fit s
unfolding count_where
Reached-Fit opens = record { at = λ i. unused }
Reached-Fit (goes r e) = Event-Fit e (Reached-Fit r)

-- What a reply says of the number of times that the transaction was run.
abbrev pub Tells : WriteResult → ℕ → Type 0
Tells result n = n ≡ 1
Tells store_closing n = n ≡ 0
Tells context_error n = n ≤ 1

returned-Tells :
    {r : Option WriteResult} {q n : ℕ} (o : WriteResult) → Fits (returned o) r q n → Tells o n
returned-Tells o told_ran = refl
returned-Tells o told_dropped = refl
returned-Tells o refused = refl
returned-Tells o left = omega arith
returned-Tells o left_queued = omega arith
returned-Tells o left_ran = omega arith
returned-Tells o left_dropped = omega arith

-- In every state that an opened store can come to, for a call of `write` that has returned: if it
-- returned the outcome of its transaction, the transaction was run once; if it returned
-- ErrStoreClosing, it was not run; if it returned the error of its context, at most once.
pub Reached-Tells :
    {s : Line}
    → Reached s
    → (i : ℕ) (o : WriteResult) → s.phase i ≡ returned o
    → Tells o (times i s.executed)
Reached-Tells {s} r i o e = returned-Tells o (
    subst (λ p. Fits p (s.res i) (times i s.write_ch) (times i s.executed)) e
      ((Reached-Fit r).at i))
