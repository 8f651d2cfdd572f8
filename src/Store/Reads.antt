-- ===== src/Store/Reads.antt =====
-- internal/store: the calls that only read.
use ermine_tq.Prelude.{String}
use ermine_tq.Store.Db.{Env}
use ermine_tq.Store.Runs.Writes.{
  IsQuiet, IsQuiet-bind, IsQuiet-return, IsQuiet-query, IsQuiet-ties, IsQuiet-or_fail,
}
use ermine_tq.Store.Tasks.{ListTasksFilter, get_task, list_tasks}
use ermine_tq.Store.Workers.{list_workers}
use ermine_tq.Store.Schedules.{get_schedule, list_schedules}

-- The reads leave the tables alone.
module _ ⦃env : Env⦄ where
  pub get_task-IsQuiet : (id : String) → IsQuiet (get_task id)
  unfolding get_task
  get_task-IsQuiet id = IsQuiet-bind (IsQuiet-query _) (λ o.
      IsQuiet-bind (IsQuiet-or_fail o _) (λ t.
        IsQuiet-bind (IsQuiet-ties λ tie. IsQuiet-query _)
          (λ found. IsQuiet-bind (IsQuiet-ties λ tie. IsQuiet-query _) (λ es. IsQuiet-return _))))

  pub get_schedule-IsQuiet : (id : String) → IsQuiet (get_schedule id)
  unfolding get_schedule
  get_schedule-IsQuiet id = IsQuiet-bind (IsQuiet-query _) (λ o. IsQuiet-or_fail o _)

  pub list_tasks-IsQuiet : (f : ListTasksFilter) → IsQuiet (list_tasks f)
  unfolding list_tasks
  list_tasks-IsQuiet f = IsQuiet-ties λ tie. IsQuiet-query _

  pub list_workers-IsQuiet : IsQuiet list_workers
  unfolding list_workers
  list_workers-IsQuiet = IsQuiet-ties λ tie. IsQuiet-query _

  pub list_schedules-IsQuiet : IsQuiet list_schedules
  unfolding list_schedules
  list_schedules-IsQuiet = IsQuiet-ties λ tie. IsQuiet-query _
