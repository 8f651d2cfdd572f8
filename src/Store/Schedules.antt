-- ===== src/Store/Schedules.antt =====
-- internal/store/schedules.go: the recurring task templates.
use ermine_tq.Prelude.{
  ℕ, String, Bool, ◌&&◌, Option, none, some, List, [], ◌∷◌, ◌++◌, ℤ, str_eq, ltb, ◌==◌,
  if◌then◌else◌, by_key, first_where, count_where, update_where,
}
use ermine_tq.Store.Models.{Schedule, fmt_db_time}
use ermine_tq.Store.Db.{
  Env, M, ◌>>=◌, ◌>>◌, return, fail, query, with_ties, insert, statement, or_fail, time_now, new_id,
  write, not_found,
}
use ermine_tq.Store.Statements.{schedule_key, order_rows, is_none}

pub record CreateScheduleInput : Type 0 where
  pub task_type : String
  pub queue : String
  pub payload : Option String
  pub cron_expr : Option String
  pub interval_secs : Option ℤ
  pub enabled : Bool
  pub next_run_at : Option ℕ

unfoldable pub new_schedule : String → ℕ → CreateScheduleInput → Schedule
new_schedule id now input = record {
  id = id;
  task_type = input.task_type;
  queue = if str_eq input.queue "" then "default" else input.queue;
  payload = input.payload;
  cron_expr = input.cron_expr;
  interval_secs = input.interval_secs;
  enabled = input.enabled;
  last_run_at = none;
  next_run_at = input.next_run_at;
  created_at = now;
}

-- nullTime
abbrev pub null_time : Option ℕ → Option ℕ
null_time none = none
null_time (some t) = some (fmt_db_time t)

-- An absent field is left unchanged.
pub record UpdateScheduleInput : Type 0 where
  pub enabled : Option Bool
  pub cron_expr : Option String
  pub interval_secs : Option ℤ
  pub next_run_at : Option ℕ

abbrev pub is_empty : UpdateScheduleInput → Bool
is_empty input =
    is_none input.enabled
    && (is_none input.cron_expr && (is_none input.interval_secs && is_none input.next_run_at))

abbrev pub or_keep {ℓ} : {A : Type ℓ} → Option A → A → A
or_keep none a = a
or_keep (some b) a = b

abbrev pub or_keep_some {ℓ} : {A : Type ℓ} → Option A → Option A → Option A
or_keep_some none o = o
or_keep_some (some b) o = some b

-- The SET clause that the given fields make up.
unfoldable pub patch : UpdateScheduleInput → Schedule → Schedule
patch input s = record s {
  enabled = or_keep input.enabled s.enabled;
  cron_expr = or_keep_some input.cron_expr s.cron_expr;
  interval_secs = or_keep_some input.interval_secs s.interval_secs;
  next_run_at = or_keep_some (null_time input.next_run_at) s.next_run_at;
}

abbrev pub created_before : Schedule → Schedule → Bool
created_before a b = ltb a.created_at b.created_at

module _ ⦃env : Env⦄ where
  unfoldable pub insert_schedule : Schedule → M (Unit {0})
  insert_schedule s =
      insert (λ d. is_none (first_where (by_key schedule_key s.id) d.schedules))
        (λ d. record d {
          schedules =
              d.schedules
              ++ record s {
                next_run_at = null_time s.next_run_at;
                created_at = fmt_db_time s.created_at;
              }
                ∷ [];
        })

  unfoldable pub create_schedule : CreateScheduleInput → M Schedule
  unfolding insert_schedule
  create_schedule input = do
    id ← new_id
    now ← time_now
    let s = new_schedule id now input
    write (insert_schedule s)
    return s

  unfoldable pub get_schedule : String → M Schedule
  get_schedule id = do
    row ← query (λ d. first_where (by_key schedule_key id) d.schedules)
    or_fail row not_found

  unfoldable pub list_schedules : M (List Schedule)
  list_schedules =
      with_ties λ tie. query (λ d. order_rows schedule_key tie created_before d.schedules)

  unfoldable pub patch_tx : String → UpdateScheduleInput → M ℕ
  patch_tx id input = statement (λ d. some (
    count_where (by_key schedule_key id) d.schedules,
    record d { schedules = update_where (by_key schedule_key id) (patch input) d.schedules },
  ))

  unfoldable pub update_schedule : String → UpdateScheduleInput → M Schedule
  unfolding patch_tx get_schedule
  update_schedule id input = if is_empty input then get_schedule id else (do
    affected ← write (patch_tx id input)
    if affected == 0 then fail not_found else get_schedule id)
