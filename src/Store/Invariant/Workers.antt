-- ===== src/Store/Invariant/Workers.antt =====
-- The derived columns of a worker's row, and its running attempts.
use ermine_tq.Prelude.{
  ℕ, suc, ◌+◌, ◌≡◌, refl, ap, sym, ◌∙◌, String, true, false, some, List, [], ◌∷◌, ◌++◌, All,
  All-update, All-append, All-map, IsUnique, by_key, first_where, count_where, update_where,
  count-append_one, count-update_key, count-update_same, str_eq, eq_iff, pos, leb_ℤ, pos-add_one,
  pos-sub_one, if◌then◌else◌, arith, to_ℕ, Bool-cases, inl, inr, ◌+ℤ◌, ◌-ℤ◌,
}
use ermine_tq.Config.{Config}
use ermine_tq.Store.Models.{Attempt, Worker, idle, busy, attempt_status_eq}
use ermine_tq.Store.Db.{Db}
use ermine_tq.Store.Statements.{
  attempt_key, worker_key, is_live, or_empty, runs_on, one_more, one_less, released,
}
use ermine_tq.Store.Steps.{
  Step, IsEnd, create, claim, end, control, replace, requeue, beat, register, schedule,
}

-- The count is that of the worker's running attempts, and the status says whether the count has
-- reached the concurrency. A worker has a name, for no attempt is counted under the empty one.
pub record IsCounted (rows : List Attempt) (w : Worker) : Type 0 where
  pub named : str_eq w.id "" ≡ false
  pub count : w.current_task_count ≡ pos (count_where (runs_on w.id) rows)
  pub mark : w.status ≡ (if leb_ℤ w.concurrency w.current_task_count then busy else idle)

one_more-counted :
    (n : ℕ) (w : Worker)
    → w.current_task_count ≡ pos n
    → ((one_more w).current_task_count ≡ pos (n + 1))
      × ((one_more w).status
          ≡ (if leb_ℤ w.concurrency (one_more w).current_task_count then busy else idle))
unfolding one_more
one_more-counted n w e = (ap (λ c. c +ℤ pos 1) e ∙ pos-add_one n, refl)

one_less-counted :
    (n : ℕ) (w : Worker)
    → w.current_task_count ≡ pos (suc n)
    → ((one_less w).current_task_count ≡ pos n)
      × ((one_less w).status
          ≡ (if leb_ℤ w.concurrency (one_less w).current_task_count then busy else idle))
unfolding one_less
one_less-counted n w e =
    (ap (λ c. c -ℤ pos 1) e ∙ pos-sub_one n, ground (arith, ap (λ c. c -ℤ pos 1) e ∙ pos-sub_one n))

module _ (rows : List Attempt) (w : Worker) (h : IsCounted rows w) where
  -- A new running attempt, seen from its worker and from another.
  claim_hit :
      (a : Attempt) (worker_id : String)
      → is_live a ≡ true
      → a.worker_id ≡ some worker_id
      → by_key worker_key worker_id w ≡ true
      → IsCounted (rows ++ a ∷ []) (one_more w)
  unfolding one_more
  claim_hit a worker_id live at e =
      let more = one_more-counted (count_where (runs_on w.id) rows) w h.count in
      record {
        named = h.named;
        count =
            more.0 ∙ ap pos (omega (arith, count-append_one (runs_on w.id) rows a, ap to_ℕ hit));
        mark = more.1;
      }
    where
      hit : runs_on w.id a ≡ true
      hit = ground (arith, eq_iff w.id worker_id, eq_iff worker_id w.id)

  claim_miss :
      (a : Attempt) (worker_id : String)
      → a.worker_id ≡ some worker_id
      → by_key worker_key worker_id w ≡ false
      → IsCounted (rows ++ a ∷ []) w
  claim_miss a worker_id at e = record {
    named = h.named;
    count = h.count ∙ ap pos (omega (arith, count-append_one (runs_on w.id) rows a, ap to_ℕ miss));
    mark = h.mark;
  }
    where
      miss : runs_on w.id a ≡ false
      miss = ground (arith, eq_iff w.id worker_id, eq_iff worker_id w.id)

  -- The end of a running attempt.
  module _ (id : String) (a : Attempt) (f : Attempt → Attempt) (over : IsEnd f)
      (u : IsUnique attempt_key rows) (held : first_where (by_key attempt_key id) rows ≡ some a)
      (live : is_live a ≡ true) where
    ended_count :
        count_where (runs_on w.id) (update_where (by_key attempt_key id) f rows)
          + to_ℕ (runs_on w.id a)
        ≡ count_where (runs_on w.id) rows
    ended_count =
        omega
          (arith, count-update_key attempt_key (runs_on w.id) id f rows a u held, ap to_ℕ none_left)
      where
        none_left : runs_on w.id (f a) ≡ false
        none_left = ground (arith, over.over a)

    end_hit :
        str_eq (or_empty a.worker_id) "" ≡ false
        → by_key worker_key (or_empty a.worker_id) w ≡ true
        → IsCounted (update_where (by_key attempt_key id) f rows) (one_less w)
    unfolding one_less
    end_hit some_worker e =
        let less =
          one_less-counted
            (count_where (runs_on w.id) (update_where (by_key attempt_key id) f rows)) w
            (h.count ∙ ap pos (omega (arith, ended_count, ap to_ℕ hit))) in
        record { named = h.named; count = less.0; mark = less.1 }
      where
        hit : runs_on w.id a ≡ true
        hit = ground (arith, eq_iff w.id (or_empty a.worker_id), eq_iff (or_empty a.worker_id) w.id)

    end_miss : runs_on w.id a ≡ false → IsCounted (update_where (by_key attempt_key id) f rows) w
    end_miss miss = record {
      named = h.named;
      count = h.count ∙ ap pos (omega (arith, ended_count, ap to_ℕ miss));
      mark = h.mark;
    }

-- An attempt counts for the worker that it names, and for no other.
runs_on_other :
    (k : String) (a : Attempt) → str_eq k (or_empty a.worker_id) ≡ false → runs_on k a ≡ false
runs_on_other k a e =
    ground (arith, eq_iff k (or_empty a.worker_id), eq_iff (or_empty a.worker_id) k)

runs_on_nobody :
    (k : String) (a : Attempt)
    → str_eq k "" ≡ false
    → str_eq (or_empty a.worker_id) "" ≡ true
    → runs_on k a ≡ false
runs_on_nobody k a e f = runs_on_other k a (rw ((eq_iff (or_empty a.worker_id) "").0 f) e)

-- Every step of the store keeps the derived columns right.
pub Step-workers-IsCounted :
    {cfg : Config} {d d' : Db}
    → Step cfg d d'
    → IsUnique attempt_key d.attempts
    → All (IsCounted d.attempts) d.workers
    → All (IsCounted d'.attempts) d'.workers
unfolding released attempt_status_eq
Step-workers-IsCounted (create t e fresh q none_yet) u h = h
Step-workers-IsCounted (claim t id worker_id now e held q room fresh) u h =
    All-update _ _ _ one_more (λ w k p. claim_hit _ w k _ worker_id refl refl p)
      (λ w k p. claim_miss _ w k _ worker_id refl p) _ h
Step-workers-IsCounted {d} (end id a f g e held live over moves spends) u h =
    elim (Bool-cases (str_eq (or_empty a.worker_id) "")) [
      | inl b ↦ rw b (
          All-map _ _
            (λ w k. end_miss _ w k id a f over u held live (runs_on_nobody w.id a k.named b)) _ h)
      | inr b ↦ rw b (
          All-update _ _ _ one_less (λ w k p. end_hit _ w k id a f over u held live b p)
            (λ w k p. end_miss _ w k id a f over u held live (runs_on_other w.id a p)) _ h)
    ]
Step-workers-IsCounted (control id t g e held moves spends) u h = h
Step-workers-IsCounted (replace id t g new e held moves fresh q none_yet spends) u h = h
Step-workers-IsCounted (requeue now) u h = h
Step-workers-IsCounted {d} (beat id now) u h =
    All-map _ _
      (λ w k. record {
        named = k.named;
        count =
            k.count ∙ ap pos (sym (count-update_same (runs_on w.id) _ _ (λ a p. refl) d.attempts));
        mark = k.mark;
      })
      _ h
Step-workers-IsCounted (register w fresh named unused zero rests room) u h =
    All-append _ _ _ h (
      record { named = named; count = zero ∙ ap pos (sym unused); mark = rw (zero, room) rests },
      tt,
    )
Step-workers-IsCounted (schedule ss) u h = h
