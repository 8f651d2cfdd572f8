-- ===== src/Examples/Requests.antt =====
-- Requests to the API, and the rounds of a pool, on the stores of the examples.
use ermine_tq.Prelude.{
  String, by_key, suc, Option, IsFresh, true, false, ◌≡◌, refl, some, [], ◌∷◌, not, ◌==◌,
  first_where, update_where,
}
use ermine_tq.Store.Models.{status_eq, fmt_db_time}
use ermine_tq.Store.Db.{write, and_then, emit, time_now, new_id, statement}
use ermine_tq.Store.Statements.{insert_task, insert_task_event, task_status_tx}
use ermine_tq.Store.Tasks.{create_task, new_task}
use ermine_tq.Store.Workers.{create_worker}
use ermine_tq.Store.Control.{resume_task}
use ermine_tq.Store.Operations.{run}
use ermine_tq.Api.Requests.{Request, worker_claim, task_control}
use ermine_tq.Api.Handlers.{serve, reply, control, action_of, post_control}
use ermine_tq.Api.Statuses.{is_valid, serve-bad_request}
use ermine_tq.Api.Refusals.{is_client_error, serve-untouched}
use ermine_tq.Store.Models.{Task}
use ermine_tq.Store.Control.Replies.{cancel}
use ermine_tq.Api.Controls.{text_of, due_status, serve-due_status}
use ermine_tq.Store.Claim.{claim_task}
use ermine_tq.Store.Claim.Replies.{claim_task-answers}
use ermine_tq.Store.Refinement.Claims.{ClaimOutcome}
use ermine_tq.Store.Db.{ok}
use ermine_tq.Store.Statements.{task_key, attempt_key, event_key}
use ermine_tq.Examples.{name, calm, one_at_a_time, waiting, waiting-IsConsistent}

abbrev pub claim_mail : Request
claim_mail = worker_claim (some (record { worker_id = "w"; task_types = "mail" ∷ []; queue = "" }))

abbrev claim_none : Request
claim_none = worker_claim (some (record { worker_id = "w"; task_types = []; queue = "" }))

-- The task waits in its queue, and is not halted.
abbrev resume_waiting : Request
resume_waiting = task_control "t" (some (record { action = "resume" }))

serve-bad_request_example :
    ((serve one_at_a_time claim_none waiting).0.status == 400) ≡ not (is_valid claim_none)
serve-bad_request_example = serve-bad_request one_at_a_time claim_none waiting

resume_refused : is_client_error (serve one_at_a_time resume_waiting waiting).0.status ≡ true
unfolding run create_task create_worker write and_then emit time_now new_id statement insert_task
    insert_task_event first_where new_task status_eq fmt_db_time update_where serve post_control
    action_of control reply resume_task task_status_tx
resume_refused = refl

serve-untouched_example : (serve one_at_a_time resume_waiting waiting).1.db ≡ waiting.db
serve-untouched_example = serve-untouched one_at_a_time resume_waiting waiting resume_refused

waiting_ids :
    IsFresh attempt_key (name waiting.ids) waiting.db.attempts
    × IsFresh event_key (name (suc waiting.ids)) waiting.db.events
unfolding run create_task create_worker write and_then emit time_now new_id statement insert_task
    insert_task_event first_where new_task status_eq fmt_db_time update_where
waiting_ids = (refl, refl)

claim_task-answers_example :
    let r = claim_task "w" "default" ("mail" ∷ []) one_at_a_time waiting in
    (x : Option (Task × String)) × ((r.0 ≡ ok x)
      × ClaimOutcome calm one_at_a_time "w" "default" ("mail" ∷ []) waiting.db x r.1.db)
claim_task-answers_example =
    claim_task-answers name (λ n. 5_000_000_000) (λ n id. 0) "w" "default" ("mail" ∷ [])
      one_at_a_time waiting waiting-IsConsistent.tasks_unique waiting_ids.0 waiting_ids.1

next_event : IsFresh event_key (name waiting.ids) waiting.db.events
unfolding run create_task create_worker write and_then emit time_now new_id statement insert_task
    insert_task_event first_where new_task status_eq fmt_db_time update_where
next_event = refl

serve-due_status_example :
    (serve one_at_a_time
      (task_control "t" (some (record { action = text_of cancel })))
      waiting).0.status
    ≡ due_status cancel (first_where (by_key task_key "t") waiting.db.tasks)
serve-due_status_example =
    serve-due_status name (λ n. 5_000_000_000) false one_at_a_time cancel "t" waiting next_event
