-- ===== src/Store/Control/Replies.antt =====
-- What the control actions (internal/store/control.go) reply, and what they make of the task.
use mathlib.Core.Option.{map as option_map}
use ermine_tq.Prelude.{
  ℕ, suc, String, Bool, true, false, ◌≡◌, refl, ap, ◌∙◌, not, ◌&&◌, Option, none, some, by_key,
  IsFresh, first_where, Option-cases, first-update_key, Bool-cases, inl, inr, arith, if◌then◌else◌,
  [], ◌∷◌,
}
use ermine_tq.Store.Models.{Task, TaskStatus, TaskEventType, status_eq}
use ermine_tq.Store.Db.{
  Db, Env, World, M, Reply, ok, err, answered, fail, ◌>>◌, not_found, invalid_transition, and_then,
  statement, settle, exec_tx, deliver, write, emit, time_now, new_id,
}
use ermine_tq.Store.Statements.{task_key, event_key, update_task, task_status_tx, insert_task_event}
use ermine_tq.Store.Attempts.{set_status}
use ermine_tq.Store.Control.{
  set_queued, set_retried, task_status_one_of, transition_tx, control_transition, halt_task,
  resume_tx, resume_task, cancel_task, retry_tx, retry_task,
}

-- The driver does not fail, and each write is answered.
abbrev pub fair : (ℕ → String) → (ℕ → ℕ) → Bool → Env
fair new_id clock foreign_keys = record {
  new_id = new_id;
  clock = clock;
  fault = λ n. false;
  delivery = λ n. answered;
  foreign_keys = foreign_keys;
  tie = λ n id. 0;
}

pub data Action : Type 0 where
  halt resume cancel retry : Action

-- The table of the actions: the statuses that they start from, and the one that they lead to.
abbrev pub permits : Action → TaskStatus → Bool
permits halt TaskStatus.running = true
permits resume TaskStatus.halted = true
permits cancel TaskStatus.queued = true
permits cancel TaskStatus.halted = true
permits retry TaskStatus.dead = true
permits retry TaskStatus.cancelled = true
permits a s = false

abbrev pub target : Action → TaskStatus
target halt = TaskStatus.halted
target resume = TaskStatus.queued
target cancel = TaskStatus.cancelled
target retry = TaskStatus.queued

abbrev pub verdict : Action → Option Task → Reply (Unit {0})
verdict a none = err not_found
verdict a (some t) = if permits a t.status then ok tt else err invalid_transition

module _ ⦃env : Env⦄ where
  abbrev pub act : Action → String → M (Unit {0})
  act halt id = halt_task id
  act resume id = resume_task id
  act cancel id = cancel_task id
  act retry id = retry_task id

-- The status of the task after the action.
abbrev pub outcome : Action → TaskStatus → TaskStatus
outcome a s = if permits a s then target a else s

halt-permits : (s : TaskStatus) → task_status_one_of s (TaskStatus.running ∷ []) ≡ permits halt s
unfolding task_status_one_of status_eq
halt-permits s = ground arith

cancel-permits :
    (s : TaskStatus)
    → task_status_one_of s (TaskStatus.queued ∷ TaskStatus.halted ∷ []) ≡ permits cancel s
unfolding task_status_one_of status_eq
cancel-permits s = ground arith

resume-permits : (s : TaskStatus) → status_eq s TaskStatus.halted ≡ permits resume s
unfolding status_eq
resume-permits s = ground arith

retry-permits :
    (s : TaskStatus)
    → (not (status_eq s TaskStatus.dead) && not (status_eq s TaskStatus.cancelled))
      ≡ not (permits retry s)
unfolding status_eq
retry-permits s = ground arith

if-not {ℓ} : {A : Type ℓ} (c : Bool) (x y : A) → (if not c then x else y) ≡ (if c then y else x)
if-not true x y = refl
if-not false x y = refl

abbrev pub status_under : String → Db → Option TaskStatus
status_under id d = option_map (λ t. t.status) (first_where (by_key task_key id) d.tasks)

module _ (names : ℕ → String) (clock : ℕ → ℕ) (fk : Bool) where
  instance abbrev calm : Env
  calm = fair names clock fk

  -- The end of each of the transactions, with what follows the write.
  finish :
      (c : Bool) (f : Task → Task) (id : String) (event announced : TaskEventType) (now : ℕ)
      (w : World) (t : Task)
      → ((r : Task) → (f r).id ≡ r.id)
      → first_where (by_key task_key id) w.db.tasks ≡ some t
      → IsFresh event_key (names w.ids) w.db.events
      → let r =
          and_then
            (settle w.db (
              (if c
                  then (update_task id f >> insert_task_event id event none now)
                  else fail invalid_transition)
                w))
            (λ _. emit id announced) in
        (r.0 ≡ (if c then ok tt else err invalid_transition))
        × (first_where (by_key task_key id) r.1.db.tasks ≡ some (if c then f t else t))
  unfolding and_then statement settle emit time_now new_id insert_task_event
  finish true f id event announced now w t same held fresh =
      let k = first-update_key task_key id f same w.db.tasks t held in
      elim (Bool-cases fk) [
        | inl a ↦ elim (Bool-cases w.attached) [
          | inl b ↦ rw (fresh, k, a, b) (refl, k)
          | inr b ↦ rw (fresh, k, a, b) (refl, k)
        ]
        | inr a ↦ elim (Bool-cases w.attached) [
          | inl b ↦ rw (fresh, a, b) (refl, k)
          | inr b ↦ rw (fresh, a, b) (refl, k)
        ]
      ]
  finish false f id event announced now w t same held fresh = (refl, held)

  -- The same, of the status that the task has then.
  shown :
      (c : Bool) (f : Task → Task) (s : TaskStatus) (id : String) (event announced : TaskEventType)
      (now : ℕ) (w : World) (t : Task)
      → ((r : Task) → ((f r).id ≡ r.id) × ((f r).status ≡ s))
      → first_where (by_key task_key id) w.db.tasks ≡ some t
      → IsFresh event_key (names w.ids) w.db.events
      → let r =
          and_then
            (settle w.db (
              (if c
                  then (update_task id f >> insert_task_event id event none now)
                  else fail invalid_transition)
                w))
            (λ _. emit id announced) in
        (r.0 ≡ (if c then ok tt else err invalid_transition))
        × (status_under id r.1.db ≡ some (if c then s else t.status))
  shown c f s id event announced now w t same held fresh =
      let (p, q) = finish c f id event announced now w t (λ r. (same r).0) held fresh in
      (p, ap (option_map (λ r. r.status)) q ∙ ap some (read c))
    where
      read : (c : Bool) → (if c then f t else t).status ≡ (if c then s else t.status)
      read true = (same t).1
      read false = refl

  -- The world after the first reading of the clock and the first query of a transaction.
  abbrev asked : World → World
  asked w = record w {
    readings = suc w.readings;
    statements = suc (suc w.statements);
    writes = suc w.writes;
  }

  -- The driver does not fail, each write is answered, and the next id is fresh among the events.
  -- Then each of HaltTask, ResumeTask, CancelTask and RetryTask replies as the table of the actions
  -- says: `not_found` without a task of that id, no error from a status that the action starts
  -- from, and else `invalid_transition`; the status of the task is afterwards the one that the
  -- action leads to if there was no error, and else what it was.
  pub act-verdict :
      (a : Action) (id : String) (w : World)
      → IsFresh event_key (names w.ids) w.db.events
      → ((act a id w).0 ≡ verdict a (first_where (by_key task_key id) w.db.tasks))
        × (status_under id (act a id w).1.db ≡ option_map (outcome a) (status_under id w.db))
  unfolding halt_task cancel_task resume_task retry_task control_transition transition_tx resume_tx
      retry_tx and_then statement settle exec_tx deliver write time_now task_status_tx set_status
      set_queued set_retried
  act-verdict a id w fresh = elim (Option-cases (first_where (by_key task_key id) w.db.tasks)) [
    | inl e ↦ missing a e
    | inr (t, e) ↦ by_action a t e
  ]
    where
      missing :
          (a : Action)
          → first_where (by_key task_key id) w.db.tasks ≡ none
          → ((act a id w).0 ≡ verdict a (first_where (by_key task_key id) w.db.tasks))
            × (status_under id (act a id w).1.db ≡ option_map (outcome a) (status_under id w.db))
      missing halt e = rw e (refl, rw e refl)
      missing resume e = rw e (refl, rw e refl)
      missing cancel e = rw e (refl, rw e refl)
      missing retry e = rw e (refl, rw e refl)

      by_action :
          (a : Action) (t : Task)
          → first_where (by_key task_key id) w.db.tasks ≡ some t
          → ((act a id w).0 ≡ verdict a (first_where (by_key task_key id) w.db.tasks))
            × (status_under id (act a id w).1.db ≡ option_map (outcome a) (status_under id w.db))
      by_action halt t e =
          rw (e, halt-permits t.status)
            (shown _ _ TaskStatus.halted id _ _ _ (asked w) t (λ r. (refl, refl)) e fresh)
      by_action resume t e =
          rw (e, resume-permits t.status)
            (shown _ _ TaskStatus.queued id _ _ _ (asked w) t (λ r. (refl, refl)) e fresh)
      by_action cancel t e =
          rw (e, cancel-permits t.status)
            (shown _ _ TaskStatus.cancelled id _ _ _ (asked w) t (λ r. (refl, refl)) e fresh)
      by_action retry t e =
          rw (e, retry-permits t.status, if-not (permits retry t.status) _ _)
            (shown _ _ TaskStatus.queued id _ _ _ (asked w) t (λ r. (refl, refl)) e fresh)
