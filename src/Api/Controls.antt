-- ===== src/Api/Controls.antt =====
-- The statuses with which ControlTask (internal/api/tasks.go) answers.
use ermine_tq.Prelude.{
  ℕ, String, Bool, true, false, ◌≡◌, refl, ap, ◌∙◌, Option, none, some, by_key, IsFresh,
  first_where, if◌then◌else◌,
}
use ermine_tq.Config.{Config}
use ermine_tq.Store.Models.{Task}
use ermine_tq.Store.Db.{Env, World, Reply, ok, err, invalid_transition}
use ermine_tq.Store.Statements.{task_key, event_key}
use ermine_tq.Store.Control.Replies.{
  fair, Action, halt, resume, cancel, retry, act, permits, verdict, act-verdict,
}
use ermine_tq.Api.Requests.{task_control}
use ermine_tq.Api.Handlers.{
  reply, write_error, error_status, control_done, control, action_of, post_control, serve,
}

-- The text of an action in a request.
abbrev pub text_of : Action → String
text_of halt = "halt"
text_of resume = "resume"
text_of cancel = "cancel"
text_of retry = "retry"

-- The status that the table of the actions asks for: 404 without one, 200 if the action
-- may start from its status, and else 409.
abbrev pub due_status : Action → Option Task → ℕ
due_status a none = 404
due_status a (some t) = if permits a t.status then 200 else 409

abbrev status_of : Reply (Unit {0}) → ℕ
status_of (ok a) = 200
status_of (err e) = error_status e

module _ (names : ℕ → String) (clock : ℕ → ℕ) (fk : Bool) where
  instance abbrev calm : Env
  calm = fair names clock fk

  reply-status :
      (r : Reply (Unit {0}) × World) → (reply write_error control_done r).0.status ≡ status_of r.0
  unfolding reply
  reply-status (ok a, w) = refl
  reply-status (err e, w) = refl

  verdict-status : (a : Action) (t : Option Task) → status_of (verdict a t) ≡ due_status a t
  verdict-status a none = refl
  verdict-status a (some t) = by_test (permits a t.status)
    where
      by_test :
          (b : Bool)
          → status_of (if b then ok tt else err invalid_transition) ≡ (if b then 200 else 409)
      by_test true = refl
      by_test false = refl

  serve-act :
      (cfg : Config) (a : Action) (id : String) (w : World)
      → (serve cfg (task_control id (some (record { action = text_of a }))) w).0.status
        ≡ status_of (act a id w).0
  unfolding serve post_control action_of control
  serve-act cfg halt id w = reply-status _
  serve-act cfg resume id w = reply-status _
  serve-act cfg cancel id w = reply-status _
  serve-act cfg retry id w = reply-status _

  -- The driver does not fail, the write is answered, and the next id is fresh among the events. Then
  -- a request for one of the actions halt, resume, cancel and retry is answered with status 404 if
  -- there is no task of that id, with 200 if the action may start from the status of the task, and
  -- else with 409.
  pub serve-due_status :
      (cfg : Config) (a : Action) (id : String) (w : World)
      → IsFresh event_key (names w.ids) w.db.events
      → (serve cfg (task_control id (some (record { action = text_of a }))) w).0.status
        ≡ due_status a (first_where (by_key task_key id) w.db.tasks)
  serve-due_status cfg a id w fresh =
      serve-act cfg a id w
      ∙ (ap status_of (act-verdict names clock fk a id w fresh).0
          ∙ verdict-status a (first_where (by_key task_key id) w.db.tasks))
