-- ===== src/Store/WriteLoop/Queueing.antt =====
-- The order of the calls in the channel of internal/store/store.go.
use mathlib.Core.List.{append_assoc}
use ermine_tq.Prelude.{
  ℕ, suc, Bool, ◌≤◌, ◌≡◌, refl, sym, ap, subst, ◌∙◌, List, [], ◌∷◌, ◌++◌, length, arith,
}
use ermine_tq.Store.WriteLoop.{
  Phase, Loop, serving, draining, exited, Line, write_capacity, Event, calls, sends,
  gives_up_sending, is_refused, hears, gives_up_waiting, serves, turns, drains, exits, closes,
  Reached, opens, goes,
}

-- While the loop serves, it has dropped no call.
abbrev NoneYet : Loop → List ℕ → Type 0
NoneYet serving dropped = dropped ≡ []
NoneYet draining dropped = Unit
NoneYet exited dropped = Unit

-- The calls in the order in which the channel took them: those that were run, then those that the
-- drain dropped, then those that still wait, which are at most as many as the channel holds.
pub record IsQueued (s : Line) : Type 0 where
  pub dropped : List ℕ
  pub in_order : s.accepted ≡ s.executed ++ (dropped ++ s.write_ch)
  pub none_yet : NoneYet s.loop dropped
  pub room : length s.write_ch ≤ write_capacity

length-append_one : (xs : List ℕ) (x : ℕ) → length (xs ++ x ∷ []) ≡ suc (length xs)
length-append_one [] x = refl
length-append_one (y ∷ ys) x = ap suc (length-append_one ys x)

same :
    {s : Line} (phase : ℕ → Phase) (close_ch : Bool)
    → IsQueued s
    → IsQueued (record s { phase = phase; close_ch = close_ch })
same phase close_ch h = record {
  dropped = h.dropped;
  in_order = h.in_order;
  none_yet = h.none_yet;
  room = h.room;
}

Event-IsQueued : {s t : Line} → Event s t → IsQueued s → IsQueued t
Event-IsQueued (calls i e) h = same _ _ h
Event-IsQueued (gives_up_sending i e) h = same _ _ h
Event-IsQueued (is_refused i e c) h = same _ _ h
Event-IsQueued (hears i o e r) h = same _ _ h
Event-IsQueued (gives_up_waiting i e) h = same _ _ h
Event-IsQueued closes h = same _ _ h
Event-IsQueued (turns l c) h = record {
  dropped = h.dropped;
  in_order = h.in_order;
  none_yet = tt;
  room = h.room;
}
Event-IsQueued (exits l q) h = record {
  dropped = h.dropped;
  in_order = h.in_order;
  none_yet = tt;
  room = h.room;
}
Event-IsQueued {s} (sends i e room) h = record {
  dropped = h.dropped;
  in_order =
      ap (λ l. l ++ i ∷ []) h.in_order
      ∙ (append_assoc s.executed (h.dropped ++ s.write_ch) (i ∷ [])
          ∙ ap (λ l. s.executed ++ l) (append_assoc h.dropped s.write_ch (i ∷ [])));
  none_yet = h.none_yet;
  room = omega (arith, length-append_one s.write_ch i);
}
Event-IsQueued {s} (serves i rest l q) h =
    let none : h.dropped ≡ [] = subst (λ x. NoneYet x h.dropped) l h.none_yet in
    record {
      dropped = [];
      in_order =
          h.in_order
          ∙ (ap (λ d. s.executed ++ (d ++ s.write_ch)) none
              ∙ (ap (λ l. s.executed ++ l) q ∙ sym (append_assoc s.executed (i ∷ []) rest)));
      none_yet = subst (λ x. NoneYet x []) (sym l) refl;
      room =
          let k : length (i ∷ rest) ≤ write_capacity =
            subst (λ x. length x ≤ write_capacity) q h.room in
          omega arith;
    }
Event-IsQueued {s} (drains i rest l q) h = record {
  dropped = h.dropped ++ i ∷ [];
  in_order =
      h.in_order
      ∙ (ap (λ x. s.executed ++ (h.dropped ++ x)) q
          ∙ ap (λ x. s.executed ++ x) (sym (append_assoc h.dropped (i ∷ []) rest)));
  none_yet = subst (λ x. NoneYet x (h.dropped ++ i ∷ [])) (sym l) tt;
  room =
      let k : length (i ∷ rest) ≤ write_capacity =
        subst (λ x. length x ≤ write_capacity) q h.room in
      omega arith;
}

-- In every state that an opened store can come to, the calls that the channel took are, in this
-- order, those whose transactions were run, in the order in which they were run, then those that
-- the drain of a closing store dropped, of which there are none while the loop serves, then those
-- that are still in the channel, which are at most 64.
pub Reached-IsQueued : {s : Line} → Reached s → IsQueued s
Reached-IsQueued opens = record {
  dropped = [];
  in_order = refl;
  none_yet = refl;
  room = omega arith;
}
Reached-IsQueued (goes r e) = Event-IsQueued e (Reached-IsQueued r)
