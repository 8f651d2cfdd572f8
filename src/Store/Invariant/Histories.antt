-- ===== src/Store/Invariant/Histories.antt =====
-- Histories of calls of internal/store.
use ermine_tq.Prelude.{◌≡◌, sym, subst, pos, ◌≤ℤ◌, List, [], ◌∷◌, All, IsUnique, count_where, arith}
use ermine_tq.Config.{Config}
use ermine_tq.Store.Db.{Db, Env, World}
use ermine_tq.Store.Statements.{task_key, attempt_key}
use ermine_tq.Store.Operations.{Op, perform, run}
use ermine_tq.Store.Steps.{Step, Steps, here, next, chain}
use ermine_tq.Store.Refinement.Performs.{NamesAreGiven, IdIsUnused, perform-Steps}
use ermine_tq.Store.Invariant.Keys.{Step-tasks-IsUnique, Step-attempts-IsUnique}
use ermine_tq.Store.Invariant.Workers.{IsCounted, Step-workers-IsCounted}
use ermine_tq.Store.Invariant.Limits.{IsWithinLimits, Step-IsWithinLimits}
use ermine_tq.Store.Invariant.Recovery.{IsAttended, Step-IsAttended, IsDated, Step-IsDated}
use ermine_tq.Store.Invariant.Budgets.{IsInBudget, Step-IsInBudget}
use ermine_tq.Store.Invariant.Numbers.{IsNumbered, Step-IsNumbered}

pub record IsConsistent (cfg : Config) (d : Db) : Type 0 where
  pub tasks_unique : IsUnique task_key d.tasks
  pub attempts_unique : IsUnique attempt_key d.attempts
  pub workers_counted : All (IsCounted d.attempts) d.workers
  pub within_limits : IsWithinLimits cfg d.tasks
  pub attended : All (IsAttended d.attempts) d.tasks
  pub dated : All IsDated d.attempts
  pub numbered : IsNumbered d.attempts
  pub in_budget : All IsInBudget d.tasks

Step-IsConsistent :
    {cfg : Config} {d d' : Db} → Step cfg d d' → IsConsistent cfg d → IsConsistent cfg d'
Step-IsConsistent s h = record {
  tasks_unique = Step-tasks-IsUnique s h.tasks_unique;
  attempts_unique = Step-attempts-IsUnique s h.attempts_unique;
  workers_counted = Step-workers-IsCounted s h.attempts_unique h.workers_counted;
  within_limits = Step-IsWithinLimits s h.tasks_unique h.within_limits;
  attended = Step-IsAttended s h.attempts_unique h.attended;
  dated = Step-IsDated s h.dated;
  numbered = Step-IsNumbered s h.numbered;
  in_budget = Step-IsInBudget s h.tasks_unique h.in_budget;
}

pub Steps-IsConsistent :
    {cfg : Config} {d d' : Db} → IsConsistent cfg d → Steps cfg d d' → IsConsistent cfg d'
Steps-IsConsistent h here = h
Steps-IsConsistent h (next r s) = Step-IsConsistent s (Steps-IsConsistent h r)

abbrev pub empty : Db
empty = record { tasks = []; attempts = []; events = []; workers = []; schedules = [] }

pub empty-IsConsistent : (cfg : Config) → pos 0 ≤ℤ cfg.limits.global → IsConsistent cfg empty
unfolding count_where
empty-IsConsistent cfg h = record {
  tasks_unique = tt;
  attempts_unique = tt;
  workers_counted = tt;
  within_limits = record {
    globally = h;
    in_queue = λ q lim. ground arith;
    in_type = λ s lim. ground arith;
  };
  attended = tt;
  dated = tt;
  numbered = tt;
  in_budget = tt;
}

module _ ⦃env : Env⦄ (cfg : Config) where
  -- Along the history no new worker is given a name in use.
  abbrev pub IdsAreUnused : List Op → World → Type 0
  IdsAreUnused [] w = Unit
  IdsAreUnused (op ∷ ops) w = IdIsUnused op w × IdsAreUnused ops (perform cfg op w)

  pub run-Steps :
      NamesAreGiven env
      → (ops : List Op) (w : World) → IdsAreUnused ops w
      → IsConsistent cfg w.db
      → Steps cfg w.db (run cfg ops w).db
  unfolding run
  run-Steps named [] w unused h = here
  run-Steps named (op ∷ ops) w unused h =
      let first = perform-Steps cfg named op w h.tasks_unique unused.0 in
      chain first (run-Steps named ops (perform cfg op w) unused.1 (Steps-IsConsistent h first))

  -- A store that starts empty, with a limit that is not negative, and what is done to it.
  module _ (named : NamesAreGiven env) (ops : List Op) (w : World) (fresh : w.db ≡ empty)
      (valid : pos 0 ≤ℤ cfg.limits.global) (unused : IdsAreUnused ops w) where
    consistent : IsConsistent cfg (run cfg ops w).db
    consistent =
        let h = subst (IsConsistent cfg) (sym fresh) (empty-IsConsistent cfg valid) in
        Steps-IsConsistent h (run-Steps named ops w unused h)

    -- A store starts from empty tables with a global limit that is not negative; uuid.NewString
    -- never returns the empty text, nor, for a new worker, a name that a running attempt gives as its
    -- worker's. Then, after any history of calls, whatever faults, ended contexts and refusals they
    -- meet, the running tasks are at most `limits.global`, those of each queue with a positive
    -- limit are at most that limit, and so are those of each task type.
    pub run-IsWithinLimits : IsWithinLimits cfg (run cfg ops w).db.tasks
    run-IsWithinLimits = consistent.within_limits

    -- A store starts from empty tables with a global limit that is not negative; uuid.NewString
    -- never returns the empty text, nor, for a new worker, a name that a running attempt gives as its
    -- worker's. Then, after any history of calls, in the row of every worker `current_task_count` is
    -- the number of running attempts that name the worker, and `status` is `busy` exactly if that
    -- number has reached `concurrency`.
    pub run-IsCounted : All (IsCounted (run cfg ops w).db.attempts) (run cfg ops w).db.workers
    run-IsCounted = consistent.workers_counted

    -- A store starts from empty tables with a global limit that is not negative; uuid.NewString
    -- never returns the empty text, nor, for a new worker, a name that a running attempt gives as its
    -- worker's. Then, after any history of calls, every task whose status is `running` has a running
    -- attempt.
    pub run-IsAttended : All (IsAttended (run cfg ops w).db.attempts) (run cfg ops w).db.tasks
    run-IsAttended = consistent.attended

    -- A store starts from empty tables with a global limit that is not negative; uuid.NewString
    -- never returns the empty text, nor, for a new worker, a name that a running attempt gives as its
    -- worker's. Then, after any history of calls, the attempts have numbers of at least 1, of two
    -- attempts at one task the later one has the greater number, and an attempt has a finishing time
    -- exactly if it does not run.
    pub run-IsNumbered :
        IsNumbered (run cfg ops w).db.attempts × All IsDated (run cfg ops w).db.attempts
    run-IsNumbered = (consistent.numbered, consistent.dated)

    -- A store starts from empty tables with a global limit that is not negative; uuid.NewString
    -- never returns the empty text, nor, for a new worker, a name that a running attempt gives as its
    -- worker's. Then, after any history of calls, the `retry_count` of every task is not negative,
    -- and it is 0 or at most the task's `max_retries`.
    pub run-IsInBudget : All IsInBudget (run cfg ops w).db.tasks
    run-IsInBudget = consistent.in_budget
