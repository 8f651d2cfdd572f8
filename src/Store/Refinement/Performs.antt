-- ===== src/Store/Refinement/Performs.antt =====
-- The calls of all writing operations of internal/store against the contract.
use ermine_tq.Prelude.{
  ℕ, String, ◌≡◌, refl, false, str_eq, Option, none, some, List, [], ◌∷◌, IsUnique, subst, sym,
  ◌==◌, Bool-cases, inl, inr, count_where,
}
use ermine_tq.Config.{Config}
use ermine_tq.Store.Models.{Task, TaskStatus, status_eq}
use ermine_tq.Store.Db.{Env, World, Db, M, and_then, ◌>>=◌, write, time_now, new_id}
use ermine_tq.Store.Statements.{task_key, runs_on}
use ermine_tq.Store.Runs.{Runs, Runs-map}
use ermine_tq.Store.Runs.Writes.{
  IsQuiet, IsQuiet-bind, IsQuiet-return, IsQuiet-emit, IsQuiet-fail, IsQuiet-query, IsQuiet-or_fail,
  IsQuiet-if, write-keeps, write_then-keeps,
}
use ermine_tq.Store.Attempts.{
  succeed_attempt, fail_attempt, timeout_attempt, cancel_attempt, update_heartbeat,
}
use ermine_tq.Store.Claim.{claim_task, announce_claim}
use ermine_tq.Store.Control.{
  control_transition, halt_task, resume_task, cancel_task, retry_task, restart_task,
}
use ermine_tq.Store.Maintenance.{requeue_retrying, record_schedule_run}
use ermine_tq.Store.Workers.{create_worker}
use ermine_tq.Store.Schedules.{
  UpdateScheduleInput, create_schedule, update_schedule, get_schedule, is_empty,
}
use ermine_tq.Store.Tasks.{create_task}
use ermine_tq.Store.Steps.{Step, Steps, here, single, claim}
use ermine_tq.Store.Refinement.Endings.{Ends-Step, succeed_tx-Ends, cancel_tx-Ends, end_failed-Ends}
use ermine_tq.Store.Refinement.Claims.{ClaimOutcome, nothing, taken, claim_tx-outcome}
use ermine_tq.Store.Refinement.Controls.{
  transition_tx-Step, resume_tx-Step, retry_tx-Step, restart_tx-Step,
}
use ermine_tq.Store.Refinement.Upkeep.{
  create_task_tx-Step, requeue_tx-Step, heartbeat_tx-Step, insert_worker-Step, insert_schedule-Step,
  patch_tx-Step, record_run_tx-Step,
}
use ermine_tq.Store.Operations.{
  Op, creates, claims, succeeds, fails, times_out, cancels_attempt, beats, halts, resumes, cancels,
  retries, restarts, requeues, registers, adds_schedule, patches_schedule, records_run, perform,
}

-- uuid.NewString never returns the empty text.
abbrev pub NamesAreGiven : Env → Type 0
NamesAreGiven env = (n : ℕ) → str_eq (env.new_id n) "" ≡ false

-- Nor does it return, for a new worker, a name that a running attempt has given as its worker's.
module _ ⦃env : Env⦄ where
  abbrev pub IdIsUnused : Op → World → Type 0
  IdIsUnused (registers input) w = count_where (runs_on (env.new_id w.ids)) w.db.attempts ≡ 0
  IdIsUnused _ w = Unit

ClaimOutcome-Steps :
    (env : Env) (cfg : Config) (worker_id queue : String) (types : List String) (d : Db)
    (r : Option (Task × String)) (d' : Db)
    → ClaimOutcome env cfg worker_id queue types d r d'
    → Steps cfg d d'
unfolding status_eq
ClaimOutcome-Steps env cfg worker_id queue types d _ _ (nothing now read idle) = here
ClaimOutcome-Steps env cfg worker_id queue types d _ _
      (taken left t id now e read el n room fresh) =
    single (claim t id worker_id now e n.held n.queued room fresh)

module _ ⦃env : Env⦄ (cfg : Config) where
  write-Step {ℓ} :
      {A : Type ℓ} (body : M A) (w : World)
      → Runs w.db body (λ _. Step cfg w.db)
      → Steps cfg w.db (write body w).1.db
  write-Step body w h = write-keeps body (Steps cfg w.db) w (Runs-map (λ a d. single) h) here

  write_then-Step {ℓ κ} :
      {A : Type ℓ} {B : Type κ} (body : M A) (f : A → M B) (w : World)
      → Runs w.db body (λ _. Step cfg w.db)
      → ((a : A) → IsQuiet (f a))
      → Steps cfg w.db ((write body >>= f) w).1.db
  write_then-Step body f w h q =
      write_then-keeps (Steps cfg w.db) body f w (Runs-map (λ a d. single) h) here q

  update_schedule-Steps :
      (id : String) (input : UpdateScheduleInput) (w : World)
      → Steps cfg w.db (update_schedule id input w).1.db
  unfolding update_schedule
  update_schedule-Steps id input w = elim (Bool-cases (is_empty input)) [
    | inl e ↦ rw (e, update_schedule) (subst (Steps cfg w.db) (sym ((get-quiet id).same_db w)) here)
    | inr e ↦
        rw (e, update_schedule)
          (write_then-Step _ _ w (patch_tx-Step cfg w.db id input)
            (λ n. IsQuiet-if (n == 0) (IsQuiet-fail _) (get-quiet id)))
  ]
    where
      get-quiet : (id : String) → IsQuiet (get_schedule id)
      get-quiet id = IsQuiet-bind (IsQuiet-query _) (λ o. IsQuiet-or_fail o _)

  claim_task-Steps :
      (worker_id queue : String) (types : List String) (w : World)
      → IsUnique task_key w.db.tasks
      → Steps cfg w.db (claim_task worker_id queue types cfg w).1.db
  unfolding claim_task announce_claim
  claim_task-Steps worker_id queue [] w u = here
  claim_task-Steps worker_id queue (type ∷ types) w u =
      write_then-keeps (Steps cfg w.db) _ _ w
        (Runs-map (λ r d'. ClaimOutcome-Steps env cfg worker_id queue (type ∷ types) w.db r d')
          (claim_tx-outcome cfg worker_id queue (type ∷ types) w.db u))
        here announce-quiet
    where
      announce-quiet : (r : Option (Task × String)) → IsQuiet (announce_claim r)
      announce-quiet none = IsQuiet-return _
      announce-quiet (some (t, id)) = IsQuiet-bind (IsQuiet-emit _ _) (λ _. IsQuiet-return _)

  -- The ids of the tasks are distinct; uuid.NewString never returns the empty text, nor, for a new
  -- worker, a name that a running attempt gives as its worker's. Then a call of any operation that
  -- writes, whatever faults, ended contexts and refusals it meets, changes the tables as a sequence
  -- of writes does that the contract of the store allows.
  pub perform-Steps :
      NamesAreGiven env
      → (op : Op) (w : World) → IsUnique task_key w.db.tasks
      → IdIsUnused op w
      → Steps cfg w.db (perform cfg op w).db
  unfolding perform
  perform-Steps named (creates input) w u _ =
      unfold create_task time_now new_id and_then in
      write_then-Step _ _ _ (create_task_tx-Step cfg w.db _ _ input)
        (λ _. IsQuiet-bind (IsQuiet-emit _ _) (λ _. IsQuiet-return _))
  perform-Steps named (claims worker_id queue types) w u _ =
      claim_task-Steps worker_id queue types w u
  perform-Steps named (succeeds id result) w u _ =
      unfold succeed_attempt in
      write_then-Step _ _ w (Runs-map (λ a. Ends-Step cfg id w.db) (succeed_tx-Ends w.db id result))
        (λ a. IsQuiet-emit _ _)
  perform-Steps named (fails id message) w u _ =
      unfold fail_attempt in
      write_then-Step _ _ w
        (Runs-map (λ a. Ends-Step cfg id w.db) (end_failed-Ends w.db id message _ _))
        (λ a. IsQuiet-emit _ _)
  perform-Steps named (times_out id) w u _ =
      unfold timeout_attempt in
      write_then-Step _ _ w (Runs-map (λ a. Ends-Step cfg id w.db) (end_failed-Ends w.db id _ _ _))
        (λ a. IsQuiet-emit _ _)
  perform-Steps named (cancels_attempt id) w u _ =
      unfold cancel_attempt in
      write_then-Step _ _ w (Runs-map (λ a. Ends-Step cfg id w.db) (cancel_tx-Ends w.db id))
        (λ a. IsQuiet-emit _ _)
  perform-Steps named (beats id) w u _ =
      unfold update_heartbeat in write-Step _ w (heartbeat_tx-Step cfg w.db id)
  perform-Steps named (halts id) w u _ =
      unfold halt_task control_transition status_eq in
      write_then-Step _ _ w (transition_tx-Step cfg w.db id _ TaskStatus.halted _ refl)
        (λ a. IsQuiet-emit _ _)
  perform-Steps named (resumes id) w u _ =
      unfold resume_task in
      write_then-Step _ _ w (resume_tx-Step cfg w.db id) (λ a. IsQuiet-emit _ _)
  perform-Steps named (cancels id) w u _ =
      unfold cancel_task control_transition status_eq in
      write_then-Step _ _ w (transition_tx-Step cfg w.db id _ TaskStatus.cancelled _ refl)
        (λ a. IsQuiet-emit _ _)
  perform-Steps named (retries id) w u _ =
      unfold retry_task in write_then-Step _ _ w (retry_tx-Step cfg w.db id) (λ a. IsQuiet-emit _ _)
  perform-Steps named (restarts id) w u _ =
      unfold restart_task in
      write_then-Step _ _ w (restart_tx-Step cfg w.db id) (λ a.
        IsQuiet-bind (IsQuiet-emit _ _)
          (λ _. IsQuiet-bind (IsQuiet-emit _ _) (λ _. IsQuiet-return _)))
  perform-Steps named requeues w u _ =
      unfold requeue_retrying in write-Step _ w (requeue_tx-Step cfg w.db)
  perform-Steps named (registers input) w u unused =
      unfold create_worker time_now new_id and_then in
      write_then-Step _ _ _ (insert_worker-Step cfg w.db _ _ input (named w.ids) unused)
        (λ _. IsQuiet-return _)
  perform-Steps named (adds_schedule input) w u _ =
      unfold create_schedule time_now new_id and_then in
      write_then-Step _ _ _ (insert_schedule-Step cfg w.db _) (λ _. IsQuiet-return _)
  perform-Steps named (patches_schedule id input) w u _ = update_schedule-Steps id input w
  perform-Steps named (records_run id next) w u _ =
      unfold record_schedule_run in write-Step _ w (record_run_tx-Step cfg w.db id next)
