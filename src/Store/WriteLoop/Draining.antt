-- ===== src/Store/WriteLoop/Draining.antt =====
-- The drain of the write channel at the end of writeLoop (internal/store/store.go).
use mathlib.Core.List.{append_assoc, append-nil}
use ermine_tq.Prelude.{
  ℕ, suc, ◌+◌, Bool, ◌≤◌, ◌≡◌, refl, sym, Option, ap, subst, ◌∙◌, some, List, [], ◌∷◌, ◌++◌, length,
  arith, All, All-append, All-map,
}
use ermine_tq.Store.WriteLoop.{
  WriteResult, store_closing, Phase, Loop, serving, draining, exited, Line, set_at, Event, calls,
  sends, gives_up_sending, is_refused, hears, gives_up_waiting, serves, turns, drains, exits,
  closes,
}

-- What happens from a state on.
pub data Later (s : Line) : Line → Type 0 where
  now : Later s s
  after : {t u : Line} → Later s t → Event t u → Later s u

abbrev pub IsTold : Line → ℕ → Type 0
IsTold t i = t.res i ≡ some store_closing

-- The calls of the channel, and those that came, are those that the drain dropped and those that
-- are still there; the dropped ones have their reply, and no other one was run.
record Drains (s t : Line) : Type 0 where
  came : List ℕ
  dropped : List ℕ
  in_order : s.write_ch ++ came ≡ dropped ++ t.write_ch
  told : All (IsTold t) dropped

data Left (s t : Line) : Type 0 where
  drains_on : t.loop ≡ draining → t.executed ≡ s.executed → Drains s t → Left s t
  is_over : t.loop ≡ exited → t.executed ≡ s.executed → All (IsTold t) s.write_ch → Left s t

told_set :
    (res : ℕ → Option WriteResult) (i : ℕ) (is : List ℕ)
    → All (λ j. res j ≡ some store_closing) is
    → All (λ j. set_at i (some store_closing) res j ≡ some store_closing) is
unfolding set_at
told_set res i is h = All-map _ _ (λ j k. ground (arith, k)) is h

set_at_self :
    (res : ℕ → Option WriteResult) (i : ℕ)
    → set_at i (some store_closing) res i ≡ some store_closing
unfolding set_at
set_at_self res i = ground arith

All_front : (P : ℕ → Type 0) (xs ys : List ℕ) → All P (xs ++ ys) → All P xs
All_front P [] ys h = tt
All_front P (x ∷ xs) ys h = (h.0, All_front P xs ys h.1)

-- An event that leaves the loop, the channel, the replies and the runs as they are.
aside :
    {s t : Line} (phase : ℕ → Phase) (close_ch : Bool)
    → Left s t
    → Left s (record t { phase = phase; close_ch = close_ch })
aside phase close_ch (drains_on l r d) =
    drains_on l r
      record { came = d.came; dropped = d.dropped; in_order = d.in_order; told = d.told }
aside phase close_ch (is_over l r h) = is_over l r h

Event-Left : {s t u : Line} → Event t u → Left s t → Left s u
Event-Left (calls i e) h = aside _ _ h
Event-Left (gives_up_sending i e) h = aside _ _ h
Event-Left (is_refused i e c) h = aside _ _ h
Event-Left (hears i o e r) h = aside _ _ h
Event-Left (gives_up_waiting i e) h = aside _ _ h
Event-Left closes h = aside _ _ h
Event-Left {s} {t} (sends i e room) (drains_on l r d) = drains_on l r record {
  came = d.came ++ i ∷ [];
  dropped = d.dropped;
  in_order =
      sym (append_assoc s.write_ch d.came (i ∷ []))
      ∙ (ap (λ x. x ++ i ∷ []) d.in_order ∙ append_assoc d.dropped t.write_ch (i ∷ []));
  told = d.told;
}
Event-Left (sends i e room) (is_over l r h) = is_over l r h
Event-Left (serves i rest k q) (drains_on l r d) = let c : serving ≡ draining = sym k ∙ l in cc
Event-Left (serves i rest k q) (is_over l r h) = let c : serving ≡ exited = sym k ∙ l in cc
Event-Left (turns k c) (drains_on l r d) = let c : serving ≡ draining = sym k ∙ l in cc
Event-Left (turns k c) (is_over l r h) = let c : serving ≡ exited = sym k ∙ l in cc
Event-Left {s} {t} (drains i rest k q) (drains_on l r d) = drains_on l r record {
  came = d.came;
  dropped = d.dropped ++ i ∷ [];
  in_order = d.in_order ∙ (ap (λ x. d.dropped ++ x) q ∙ sym (append_assoc d.dropped (i ∷ []) rest));
  told =
      All-append _ d.dropped (i ∷ []) (told_set t.res i d.dropped d.told) (set_at_self t.res i, tt);
}
Event-Left (drains i rest k q) (is_over l r h) = let c : draining ≡ exited = sym k ∙ l in cc
Event-Left {s} {t} (exits k q) (drains_on l r d) = is_over refl r (
    All_front _ s.write_ch d.came (
      subst (All (IsTold t))
        (sym (d.in_order ∙ (ap (λ x. d.dropped ++ x) q ∙ append-nil d.dropped))) d.told))
Event-Left (exits k q) (is_over l r h) = let c : draining ≡ exited = sym k ∙ l in cc

Later-Left : {s t : Line} → Later s t → s.loop ≡ draining → Left s t
Later-Left {s} now e =
    drains_on e refl record { came = []; dropped = []; in_order = append-nil s.write_ch; told = tt }
Later-Left (after l v) e = Event-Left v (Later-Left l e)

-- When a loop that drained has returned, each call that stood in the channel when the drain began
-- has the reply ErrStoreClosing, whatever the callers did meanwhile and afterwards, and no
-- transaction has been run since.
pub drained-IsTold :
    {s t : Line}
    → Later s t
    → s.loop ≡ draining
    → t.loop ≡ exited
    → All (IsTold t) s.write_ch × (t.executed ≡ s.executed)
drained-IsTold l d x = finished (Later-Left l d) x
  where
    finished :
        {s t : Line}
        → Left s t
        → t.loop ≡ exited
        → All (IsTold t) s.write_ch × (t.executed ≡ s.executed)
    finished (drains_on l r d) x = let c : draining ≡ exited = sym l ∙ x in cc
    finished (is_over l r h) x = (h, r)

-- The steps of the loop along the way.
unfoldable pub loop_steps : {s t : Line} → Later s t → ℕ
loop_steps now = 0
loop_steps (after l (serves i rest k q)) = suc (loop_steps l)
loop_steps (after l (turns k c)) = suc (loop_steps l)
loop_steps (after l (drains i rest k q)) = suc (loop_steps l)
loop_steps (after l (exits k q)) = suc (loop_steps l)
loop_steps (after l (calls i e)) = loop_steps l
loop_steps (after l (sends i e r)) = loop_steps l
loop_steps (after l (gives_up_sending i e)) = loop_steps l
loop_steps (after l (is_refused i e c)) = loop_steps l
loop_steps (after l (hears i o e r)) = loop_steps l
loop_steps (after l (gives_up_waiting i e)) = loop_steps l
loop_steps (after l closes) = loop_steps l

-- The step that ends the loop.
abbrev last_step : Loop → ℕ
last_step serving = 0
last_step draining = 0
last_step exited = 1

last_step_le : (l : Loop) → last_step l ≤ 1
last_step_le serving = omega arith
last_step_le draining = omega arith
last_step_le exited = omega arith

length-append_one : (xs : List ℕ) (x : ℕ) → length (xs ++ x ∷ []) ≡ suc (length xs)
length-append_one [] x = refl
length-append_one (y ∷ ys) x = ap suc (length-append_one ys x)

no_serving : {s t : Line} → Left s t → t.loop ≡ serving → ⊥
no_serving (drains_on l r d) e = let c : serving ≡ draining = sym e ∙ l in cc
no_serving (is_over l r h) e = let c : serving ≡ exited = sym e ∙ l in cc

-- Each step of the loop takes a call from the channel, or is the last one.
steps_of :
    {s t : Line} (l : Later s t)
    → s.loop ≡ draining
    → loop_steps l + (length t.write_ch + length s.accepted)
      ≡ length s.write_ch + (length t.accepted + last_step t.loop)
unfolding loop_steps
steps_of now d = omega (arith, ap last_step d)
steps_of {s} (after {t} l (sends i e room)) d =
    let ih = steps_of l d in
    omega (arith, ih, length-append_one t.write_ch i, length-append_one t.accepted i)
steps_of {s} (after {t} l (drains i rest k q)) d =
    let ih = steps_of l d in let c = ap length q in omega arith
steps_of (after l (exits k q)) d =
    let ih = steps_of l d in let c = ap length q in let z = ap last_step k in omega arith
steps_of (after l (serves i rest k q)) d = absurd (no_serving (Later-Left l d) k)
steps_of (after l (turns k c)) d = absurd (no_serving (Later-Left l d) k)
steps_of (after l (calls i e)) d = steps_of l d
steps_of (after l (gives_up_sending i e)) d = steps_of l d
steps_of (after l (is_refused i e c)) d = steps_of l d
steps_of (after l (hears i o e r)) d = steps_of l d
steps_of (after l (gives_up_waiting i e)) d = steps_of l d
steps_of (after l closes) d = steps_of l d

-- From the beginning of a drain on, whatever the callers do, the loop makes at most one step for
-- each call that stands in the channel, one for each call that the channel takes meanwhile, and
-- one to return.
pub draining_ends :
    {s t : Line} (l : Later s t)
    → s.loop ≡ draining
    → loop_steps l + length s.accepted ≤ suc (length s.write_ch + length t.accepted)
draining_ends {t} l d = omega (arith, steps_of l d, last_step_le t.loop)
