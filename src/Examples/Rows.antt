-- ===== src/Examples/Rows.antt =====
-- Formats that are lawful, and the rows of a database through them.
use Prim.Native.Char.{Char, code, nul}
use Prim.Native.String.{String}
use ermine_tq.Prelude.{
  arith, true, ℕ, zero, suc, ◌==◌, if◌then◌else◌, ◌≡◌, refl, ap, Option, none, some, List, [], ◌∷◌,
  map, pos,
}
use ermine_tq.Store.Models.{TaskStatus, AttemptStatus, TaskEventType, WorkerStatus, fmt_db_time}
use ermine_tq.Store.Db.{Db}
use ermine_tq.Store.Statements.{stored}
use ermine_tq.Store.Scans.{Formats, IsLawful, found, scan_rows, as_time}
use ermine_tq.Store.Scans.Tasks.{
  scan_task, scan_attempt, scan_task_event, task_columns, attempt_columns, event_columns,
}
use ermine_tq.Store.Scans.Parts.{scan_worker, scan_schedule, worker_columns, schedule_columns}
use ermine_tq.Store.Scans.RoundTrip.{
  AreEarly, scan_rows-stored, stored_attempt, stored_worker, stored_schedule, scanned_event,
}

-- A time is written as so many characters; one that is not in the layout has a mark before them.
pub unary : ℕ → String
unary zero = String.[]
unary (suc n) = String.◌∷◌ nul (unary n)

pub length_of : String → ℕ
length_of String.[] = zero
length_of (String.◌∷◌ c s) = suc (length_of s)

pub length_of-unary : (n : ℕ) → length_of (unary n) ≡ n
unfolding length_of unary
length_of-unary zero = refl
length_of-unary (suc n) = ap suc (length_of-unary n)

abbrev first : String → Char
first String.[] = nul
first (String.◌∷◌ c s) = c

abbrev mark : Char
mark = first "+"

abbrev read_unmarked : String → Option ℕ
read_unmarked String.[] = some zero
read_unmarked (String.◌∷◌ c s) = if code c == 0 then some (suc (length_of s)) else none

abbrev read_marked : String → Option ℕ
read_marked String.[] = none
read_marked (String.◌∷◌ c s) = some (length_of s)

read_unmarked-unary : (n : ℕ) → read_unmarked (unary n) ≡ some n
unfolding unary
read_unmarked-unary zero = refl
read_unmarked-unary (suc n) = ap (λ m. some (suc m)) (length_of-unary n)

-- A list of texts: each character has a mark before it, and each text an end after it.
spell : String → String → String
spell String.[] rest = String.◌∷◌ nul rest
spell (String.◌∷◌ c s) rest = String.◌∷◌ mark (String.◌∷◌ c (spell s rest))

spell_all : List String → String
spell_all [] = String.[]
spell_all (x ∷ xs) = spell x (spell_all xs)

abbrev push : Char → Option (List String) → Option (List String)
push c none = none
push c (some []) = none
push c (some (x ∷ xs)) = some (String.◌∷◌ c x ∷ xs)

abbrev begin : Option (List String) → Option (List String)
begin none = none
begin (some xs) = some (String.[] ∷ xs)

read_all : String → Option (List String)
read_all String.[] = some []
read_all (String.◌∷◌ m String.[]) = if code m == 0 then some (String.[] ∷ []) else none
read_all (String.◌∷◌ m (String.◌∷◌ c s)) =
    let ended = begin (read_all (String.◌∷◌ c s)) in
    let pushed = push c (read_all s) in if code m == 0 then ended else pushed

read_all-end : (s : String) → read_all (String.◌∷◌ nul s) ≡ begin (read_all s)
unfolding read_all
read_all-end String.[] = refl
read_all-end (String.◌∷◌ c s) = refl

read_all-spell :
    (x rest : String) (xs : List String)
    → read_all rest ≡ some xs
    → read_all (spell x rest) ≡ some (x ∷ xs)
unfolding read_all spell
read_all-spell String.[] rest xs h = rw (read_all-end rest, h) refl
read_all-spell (String.◌∷◌ c s) rest xs h = rw (read_all-spell s rest xs h) refl

read_all-spell_all : (xs : List String) → read_all (spell_all xs) ≡ some xs
unfolding spell_all read_all
read_all-spell_all [] = refl
read_all-spell_all (x ∷ xs) = read_all-spell x (spell_all xs) xs (read_all-spell_all xs)

abbrev formats : Formats
formats = record {
  layout_text = λ t. unary (fmt_db_time t);
  read_layout = read_unmarked;
  nano_text = λ t. String.◌∷◌ mark (unary t);
  read_nano = read_marked;
  read_rfc3339 = read_marked;
  marshal = spell_all;
  unmarshal = read_all;
  marshal_detail = λ x. "{}";
}

formats-IsLawful : IsLawful formats
formats-IsLawful = record {
  read-layout = λ t h. read_unmarked-unary (fmt_db_time t);
  layout_not_nano = λ t h. refl;
  read-nano = λ t h. ap some (length_of-unary t);
  unmarshal-marshal = read_all-spell_all;
}

-- Half of the rows' times have a fraction of a second.
abbrev rows : Db
rows = record {
  tasks =
      record {
        id = "t";
        type = "mail";
        queue = "default";
        payload = some "{}";
        status = TaskStatus.running;
        priority = pos 1;
        retry_count = pos 0;
        max_retries = pos 3;
        timeout_secs = none;
        run_at = 1_500_000_000;
        parent_id = none;
        schedule_id = some "s";
        created_at = 1_000_000_000;
        updated_at = 1_000_000_000;
      }
      ∷ [];
  attempts =
      record {
        id = "a";
        task_id = "t";
        attempt_num = 1;
        worker_id = some "w";
        status = AttemptStatus.running;
        result = none;
        error = none;
        started_at = some 1_500_000_000;
        finished_at = none;
        heartbeat_at = none;
      }
      ∷ [];
  events =
      record {
        id = "e";
        task_id = "t";
        event = TaskEventType.started;
        detail = none;
        created_at = 1_000_000_000;
      }
      ∷ [];
  workers =
      record {
        id = "w";
        type = "go";
        task_types = "mail" ∷ "report" ∷ [];
        queue = "default";
        concurrency = pos 2;
        current_task_count = pos 1;
        status = WorkerStatus.idle;
        started_at = 1_000_000_000;
        heartbeat_at = none;
        socket_path = none;
      }
      ∷ [];
  schedules =
      record {
        id = "s";
        task_type = "mail";
        queue = "default";
        payload = none;
        cron_expr = some "* * * * *";
        interval_secs = none;
        enabled = true;
        last_run_at = none;
        next_run_at = some 1_500_000_000;
        created_at = 1_000_000_000;
      }
      ∷ [];
}

rows-AreEarly : AreEarly rows
rows-AreEarly = record {
  tasks = ((omega arith, omega arith, omega arith), tt);
  attempts = ((omega arith, tt, tt), tt);
  events = (omega arith, tt);
  workers = ((omega arith, tt), tt);
  schedules = ((tt, omega arith, omega arith), tt);
}

scan_rows-stored_example :
    (scan_rows (scan_task formats) (map (λ t. found (task_columns formats as_time t)) rows.tasks)
      ≡ found (map stored rows.tasks))
    × (scan_rows
          (scan_attempt formats)
          (map (λ a. found (attempt_columns formats as_time a)) rows.attempts)
        ≡ found (map stored_attempt rows.attempts))
    × (scan_rows
          (scan_task_event formats)
          (map (λ e. found (event_columns formats as_time e)) rows.events)
        ≡ found (map (scanned_event formats) rows.events))
    × (scan_rows
          (scan_worker formats)
          (map (λ w. found (worker_columns formats as_time w)) rows.workers)
        ≡ found (map stored_worker rows.workers))
    × (scan_rows
          (scan_schedule formats)
          (map (λ s. found (schedule_columns formats as_time s)) rows.schedules)
        ≡ found (map stored_schedule rows.schedules))
scan_rows-stored_example = scan_rows-stored formats formats-IsLawful as_time rows rows-AreEarly
