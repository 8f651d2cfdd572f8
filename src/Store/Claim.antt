-- ===== src/Store/Claim.antt =====
-- internal/store/claim.go: ClaimTask.
pub mod Replies
use mathlib.Core.List.{head?}
use ermine_tq.Prelude.{
  ℕ, suc, String, Bool, false, ◌&&◌, ◌||◌, Option, none, some, List, [], ◌∷◌, ◌++◌, pos, str_eq,
  leb, ltb, leb_ℤ, ltb_ℤ, if◌then◌else◌, by_key, first_where, select_where, count_where,
  update_where, order_by,
}
use ermine_tq.Config.{Config, queue_limit, task_type_limit}
use ermine_tq.Store.Models.{
  Task, Attempt, TaskStatus, AttemptStatus, TaskEventType, Detail, status_eq, fmt_db_time,
}
use ermine_tq.Store.Db.{
  Db, Env, M, ◌>>=◌, ◌>>◌, return, query, with_ties, exec, statement, insert, time_now, new_id,
  write, emit,
}
use ermine_tq.Store.Statements.{
  task_key, attempt_key, worker_key, order_rows, task_before, is_none, is_running, refers, one_more,
  insert_task_event,
}

-- The WHERE clauses of the three counts.
abbrev pub runs_in : String → Task → Bool
runs_in queue t = is_running t && str_eq t.queue queue

abbrev pub runs_as : String → Task → Bool
runs_as type t = is_running t && str_eq t.type type

-- type IN (…)
unfoldable pub one_of : List String → String → Bool
one_of [] s = false
one_of (k ∷ ks) s = str_eq s k || one_of ks s

-- The WHERE clause of the claim.
unfoldable pub is_claimable : String → List String → ℕ → Task → Bool
is_claimable queue types now t =
    status_eq t.status TaskStatus.queued
    && (str_eq t.queue queue && (one_of types t.type && leb t.run_at now))

unfoldable pub set_running : ℕ → Task → Task
set_running now t = record t { status = TaskStatus.running; updated_at = now }

-- The row that the subquery finds.
unfoldable pub next_task : (String → ℕ) → String → List String → ℕ → List Task → Option Task
next_task tie queue types now ts =
    head? (order_rows task_key tie task_before (select_where (is_claimable queue types now) ts))

-- UPDATE … WHERE id = (SELECT …) RETURNING …
unfoldable pub claim_row : (String → ℕ) → String → List String → ℕ → Db → Option Task × Db
claim_row tie queue types now d = elim (next_task tie queue types now d.tasks) [
  | none ↦ (none, d)
  | some t ↦
      let ts = update_where (by_key task_key t.id) (set_running now) d.tasks in
      (first_where (by_key task_key t.id) ts, record d { tasks = ts })
]

-- COALESCE(MAX(attempt_num), 0)
unfoldable pub max_attempt_num : String → List Attempt → ℕ
max_attempt_num task_id [] = 0
max_attempt_num task_id (a ∷ rest) =
    let m = max_attempt_num task_id rest in
    if str_eq a.task_id task_id && ltb m a.attempt_num then a.attempt_num else m

-- The row of a new attempt.
abbrev pub new_attempt : String → String → ℕ → String → ℕ → Attempt
new_attempt id task_id num worker_id now = record {
  id = id;
  task_id = task_id;
  attempt_num = num;
  worker_id = some worker_id;
  status = AttemptStatus.running;
  result = none;
  error = none;
  started_at = some now;
  finished_at = none;
  heartbeat_at = none;
}

module _ ⦃env : Env⦄ where
  -- Guard 2: whether the queue is at its limit.
  unfoldable pub queue_full : Config → String → M Bool
  queue_full cfg queue =
      let limit = queue_limit cfg queue in
      if ltb_ℤ (pos 0) limit
      then (do n ← query (λ d. count_where (runs_in queue) d.tasks); return (leb_ℤ limit (pos n)))
      else return false

  -- Guard 3: whether a type is at its limit, and the types that are not.
  unfoldable pub type_full : Config → String → M Bool
  type_full cfg type =
      let limit = task_type_limit cfg type in
      if ltb_ℤ (pos 0) limit
      then (do n ← query (λ d. count_where (runs_as type) d.tasks); return (leb_ℤ limit (pos n)))
      else return false

  unfoldable pub eligible_types : Config → List String → M (List String)
  unfolding type_full
  eligible_types cfg [] = return []
  eligible_types cfg (type ∷ types) = do
    full ← type_full cfg type
    rest ← eligible_types cfg types
    return (if full then rest else type ∷ rest)

  unfoldable pub insert_attempt : Attempt → M (Unit {0})
  insert_attempt a =
      insert
        (λ d.
          is_none (first_where (by_key attempt_key a.id) d.attempts)
          && (refers env.foreign_keys task_key (some a.task_id) d.tasks
              && refers env.foreign_keys worker_key a.worker_id d.workers))
        (λ d. record d { attempts = d.attempts ++ a ∷ [] })

  -- What follows the claim of a row: the attempt, the worker's count and the event.
  unfoldable pub record_claim : String → ℕ → Task → M (Option (Task × String))
  unfolding insert_attempt
  record_claim worker_id now t = do
    attempt_id ← new_id
    prev_max ← query (λ d. max_attempt_num t.id d.attempts)
    insert_attempt (new_attempt attempt_id t.id (suc prev_max) worker_id now)
    exec (λ d. record d { workers = update_where (by_key worker_key worker_id) one_more d.workers })
    insert_task_event t.id TaskEventType.started (some (Detail.attempt attempt_id)) now
    return (some (t, attempt_id))

  unfoldable pub after_claim : String → ℕ → Option Task → M (Option (Task × String))
  unfolding record_claim
  after_claim worker_id now none = return none
  after_claim worker_id now (some t) = record_claim worker_id now t

  -- The atomic claim among the types that have capacity.
  unfoldable pub claim_among : String → String → ℕ → List String → M (Option (Task × String))
  unfolding after_claim
  claim_among worker_id queue now [] = return none
  claim_among worker_id queue now (type ∷ types) = do
    row ← with_ties λ tie. statement (λ d. some (claim_row tie queue (type ∷ types) now d))
    after_claim worker_id now row

  unfoldable pub claim_tx : String → String → List String → Config → M (Option (Task × String))
  unfolding claim_among
  claim_tx worker_id queue types cfg = do
    now' ← time_now
    let now = fmt_db_time now'
    global_running ← query (λ d. count_where is_running d.tasks)
    if leb_ℤ cfg.limits.global (pos global_running) then return none else (do
      full ← queue_full cfg queue
      if full
          then return none
          else (do eligible ← eligible_types cfg types; claim_among worker_id queue now eligible))

  -- The event follows the write, if a task was claimed.
  unfoldable pub announce_claim : Option (Task × String) → M (Option (Task × String))
  announce_claim none = return none
  announce_claim (some (t, attempt_id)) = do
    emit t.id TaskEventType.started
    return (some (t, attempt_id))

  unfoldable pub claim_task : String → String → List String → Config → M (Option (Task × String))
  unfolding claim_tx announce_claim
  claim_task worker_id queue [] cfg = return none
  claim_task worker_id queue (type ∷ types) cfg = do
    claimed ← write (claim_tx worker_id queue (type ∷ types) cfg)
    announce_claim claimed
