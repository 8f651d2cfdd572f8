-- ===== src/Store/Workers.antt =====
-- internal/store/workers.go: the registered workers.
use ermine_tq.Prelude.{
  ℕ, String, Bool, Option, none, List, [], ◌∷◌, ◌++◌, ℤ, pos, str_eq, ltb, leb_ℤ, if◌then◌else◌,
  by_key, first_where,
}
use ermine_tq.Store.Models.{Worker, idle, fmt_db_time}
use ermine_tq.Store.Db.{
  Env, M, ◌>>=◌, ◌>>◌, return, query, with_ties, insert, or_fail, time_now, new_id, write,
  not_found,
}
use ermine_tq.Store.Statements.{worker_key, order_rows, is_none}

-- A nil slice of types and an empty one are stored alike.
pub record CreateWorkerInput : Type 0 where
  pub type : String
  pub task_types : List String
  pub queue : String
  pub concurrency : ℤ
  pub socket_path : Option String

-- The worker with its defaults.
unfoldable pub new_worker : String → ℕ → CreateWorkerInput → Worker
new_worker id now input = record {
  id = id;
  type = input.type;
  task_types = input.task_types;
  queue = if str_eq input.queue "" then "default" else input.queue;
  concurrency = if leb_ℤ input.concurrency (pos 0) then pos 1 else input.concurrency;
  current_task_count = pos 0;
  status = idle;
  started_at = now;
  heartbeat_at = none;
  socket_path = input.socket_path;
}

abbrev pub starts_before : Worker → Worker → Bool
starts_before a b = ltb a.started_at b.started_at

module _ ⦃env : Env⦄ where
  unfoldable pub insert_worker : Worker → M (Unit {0})
  insert_worker w =
      insert (λ d. is_none (first_where (by_key worker_key w.id) d.workers))
        (λ d. record d {
          workers = d.workers ++ record w { started_at = fmt_db_time w.started_at } ∷ [];
        })

  unfoldable pub create_worker : CreateWorkerInput → M Worker
  unfolding insert_worker
  create_worker input = do
    id ← new_id
    now ← time_now
    let w = new_worker id now input
    write (insert_worker w)
    return w

  unfoldable pub get_worker : String → M Worker
  get_worker id = do
    row ← query (λ d. first_where (by_key worker_key id) d.workers)
    or_fail row not_found

  unfoldable pub list_workers : M (List Worker)
  list_workers = with_ties λ tie. query (λ d. order_rows worker_key tie starts_before d.workers)
