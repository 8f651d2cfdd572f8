-- ===== src/Store/Refusals.antt =====
-- The errors of the store that its callers answer for, and what such a call leaves in the tables.
pub mod Patches
use ermine_tq.Prelude.{
  ℕ, String, Bool, true, false, ◌≡◌, refl, sym, ap, subst, ◌∙◌, Option, none, some, List, [], ◌∷◌,
  ◌==◌, Bool-cases, inl, inr, arith, if◌then◌else◌, by_key, first_where, count_where, update_where,
  first-update_where,
}
use ermine_tq.Config.{Config}
use ermine_tq.Store.Models.{Task, TaskEventType, Schedule}
use ermine_tq.Store.Db.{
  Db, Env, World, M, Reply, ok, err, Error, not_found, invalid_transition, attempt_not_running,
  context_done, driver_error, and_then, ◌>>=◌, return, time_now, new_id, statement, write, emit,
  fail,
}
use ermine_tq.Store.Statements.{schedule_key}
use ermine_tq.Store.Reads.{get_schedule-IsQuiet}
use ermine_tq.Store.Atomicity.{IsAtomic, undone, committed, unseen, opened, write-IsAtomic}
use ermine_tq.Store.Tasks.{CreateTaskInput, create_task}
use ermine_tq.Store.Claim.{claim_task, announce_claim}
use ermine_tq.Store.Control.{
  halt_task, resume_task, cancel_task, retry_task, restart_task, control_transition,
}
use ermine_tq.Store.Attempts.{succeed_attempt, fail_attempt}
use ermine_tq.Store.Workers.{CreateWorkerInput, create_worker}
use ermine_tq.Store.Schedules.{
  CreateScheduleInput, UpdateScheduleInput, create_schedule, get_schedule, update_schedule,
  patch_tx, patch, is_empty,
}

-- The errors that say what is wrong with a call, not with the store.
abbrev pub is_blamed : Error → Bool
is_blamed not_found = true
is_blamed invalid_transition = true
is_blamed attempt_not_running = true
is_blamed _ = false

abbrev pub is_refused {ℓ} : {A : Type ℓ} → Reply A → Bool
is_refused (ok a) = false
is_refused (err e) = is_blamed e

-- A refused call leaves the tables alone, and a call that is never refused.
pub record IsClean {ℓ} {A : Type ℓ} (m : M A) : Type 0 where
  pub clean : (w : World) → is_refused (m w).0 ≡ true → (m w).1.db ≡ w.db

pub record IsSure {ℓ} {A : Type ℓ} (m : M A) : Type 0 where
  pub sure : (w : World) → is_refused (m w).0 ≡ false

IsSure-return {ℓ} : {A : Type ℓ} (a : A) → IsSure (return a)
IsSure-return a = record { sure = λ w. refl }

and_then-clean {ℓ κ} :
    {A : Type ℓ} {B : Type κ} (before : Db) (r : Reply A × World) (f : A → M B)
    → (is_refused r.0 ≡ true → r.1.db ≡ before)
    → ((a : A) → IsSure (f a))
    → is_refused (and_then r f).0 ≡ true
    → (and_then r f).1.db ≡ before
unfolding and_then
and_then-clean before (ok a, w) f c s h = let k = (s a).sure w in cc
and_then-clean before (err e, w) f c s h = c h

and_then-sure {ℓ κ} :
    {A : Type ℓ} {B : Type κ} (r : Reply A × World) (f : A → M B)
    → is_refused r.0 ≡ false
    → ((a : A) → IsSure (f a))
    → is_refused (and_then r f).0 ≡ false
unfolding and_then
and_then-sure (ok a, w) f h s = (s a).sure w
and_then-sure (err e, w) f h s = h

IsSure-bind {ℓ κ} :
    {A : Type ℓ} {B : Type κ} {m : M A} {f : A → M B}
    → IsSure m
    → ((a : A) → IsSure (f a))
    → IsSure (m >>= f)
IsSure-bind {m} {f} s t = record { sure = λ w. and_then-sure (m w) f (s.sure w) t }

pub IsClean-then {ℓ κ} :
    {A : Type ℓ} {B : Type κ} (m : M A) (f : A → M B)
    → IsClean m
    → ((a : A) → IsSure (f a))
    → IsClean (m >>= f)
IsClean-then m f c s = record { clean = λ w. and_then-clean w.db (m w) f (c.clean w) s }

module _ ⦃env : Env⦄ where
  write-clean {ℓ} :
      {A : Type ℓ} (before : Db) (r s : Reply A × World)
      → IsAtomic before r s
      → is_refused s.0 ≡ true
      → s.1.db ≡ before
  write-clean before r s (undone e p q) h = q
  write-clean before r s (committed a p q d) h = let k : false ≡ true = rw q at h in cc
  write-clean before r s (unseen a p q d) h = let k : false ≡ true = rw q at h in cc

  IsClean-write {ℓ} : {A : Type ℓ} (body : M A) → IsClean (write body)
  IsClean-write body = record { clean = λ w. write-clean _ _ _ (write-IsAtomic body w) }

  IsSure-emit : (id : String) (event : TaskEventType) → IsSure (emit id event)
  unfolding emit and_then time_now
  IsSure-emit id event = record { sure = λ w. refl }

  -- Readings of the clock and new ids before a clean call.
  IsClean-time {ℓ} :
      {A : Type ℓ} (f : ℕ → M A) → ((n : ℕ) → IsClean (f n)) → IsClean (time_now >>= f)
  unfolding time_now and_then
  IsClean-time f c = record { clean = λ w. (c _).clean _ }

  IsClean-new_id {ℓ} :
      {A : Type ℓ} (f : String → M A) → ((s : String) → IsClean (f s)) → IsClean (new_id >>= f)
  unfolding new_id and_then
  IsClean-new_id f c = record { clean = λ w. (c _).clean _ }

  pub create_task-IsClean : (input : CreateTaskInput) → IsClean (create_task input)
  unfolding create_task
  create_task-IsClean input = IsClean-time _ (λ now. IsClean-new_id _ (λ id.
      IsClean-then _ _ (IsClean-write _)
        (λ a. IsSure-bind (IsSure-emit _ _) (λ b. IsSure-return _))))

  pub halt_task-IsClean : (id : String) → IsClean (halt_task id)
  unfolding halt_task control_transition
  halt_task-IsClean id = IsClean-then _ _ (IsClean-write _) (λ a. IsSure-emit _ _)

  pub resume_task-IsClean : (id : String) → IsClean (resume_task id)
  unfolding resume_task
  resume_task-IsClean id = IsClean-then _ _ (IsClean-write _) (λ a. IsSure-emit _ _)

  pub cancel_task-IsClean : (id : String) → IsClean (cancel_task id)
  unfolding cancel_task control_transition
  cancel_task-IsClean id = IsClean-then _ _ (IsClean-write _) (λ a. IsSure-emit _ _)

  pub retry_task-IsClean : (id : String) → IsClean (retry_task id)
  unfolding retry_task
  retry_task-IsClean id = IsClean-then _ _ (IsClean-write _) (λ a. IsSure-emit _ _)

  pub restart_task-IsClean : (id : String) → IsClean (restart_task id)
  unfolding restart_task
  restart_task-IsClean id = IsClean-then _ _ (IsClean-write _) (λ t.
      IsSure-bind (IsSure-emit _ _) (λ a. IsSure-bind (IsSure-emit _ _) (λ b. IsSure-return _)))

  pub create_worker-IsClean : (input : CreateWorkerInput) → IsClean (create_worker input)
  unfolding create_worker
  create_worker-IsClean input =
      IsClean-new_id _
        (λ id. IsClean-time _ (λ now. IsClean-then _ _ (IsClean-write _) (λ a. IsSure-return _)))

  pub create_schedule-IsClean : (input : CreateScheduleInput) → IsClean (create_schedule input)
  unfolding create_schedule
  create_schedule-IsClean input =
      IsClean-new_id _
        (λ id. IsClean-time _ (λ now. IsClean-then _ _ (IsClean-write _) (λ a. IsSure-return _)))

  pub succeed_attempt-IsClean :
      (id : String) (result : Option String) → IsClean (succeed_attempt id result)
  unfolding succeed_attempt
  succeed_attempt-IsClean id result = IsClean-then _ _ (IsClean-write _) (λ a. IsSure-emit _ _)

  pub fail_attempt-IsClean : (id message : String) → IsClean (fail_attempt id message)
  unfolding fail_attempt
  fail_attempt-IsClean id message =
      IsClean-then _ _ (IsClean-write _) (λ (task_id, event). IsSure-emit _ _)

  announce_claim-IsSure : (r : Option (Task × String)) → IsSure (announce_claim r)
  unfolding announce_claim
  announce_claim-IsSure none = IsSure-return _
  announce_claim-IsSure (some (t, id)) = IsSure-bind (IsSure-emit _ _) (λ a. IsSure-return _)

  pub claim_task-IsClean :
      (worker_id queue : String) (types : List String) (cfg : Config)
      → IsClean (claim_task worker_id queue types cfg)
  unfolding claim_task
  claim_task-IsClean worker_id queue [] cfg = record { clean = λ w h. refl }
  claim_task-IsClean worker_id queue (t ∷ ts) cfg =
      IsClean-then _ _ (IsClean-write _) announce_claim-IsSure
