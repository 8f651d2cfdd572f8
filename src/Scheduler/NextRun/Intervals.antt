-- ===== src/Scheduler/NextRun/Intervals.antt =====
-- The next run of an interval schedule (internal/scheduler/next_run.go).
use ermine_tq.Prelude.{ℕ, ◌+◌, ◌^◌, ◌<◌, ◌≤◌, none, some}
use ermine_tq.Store.Models.{Schedule}

-- What an interval is added to: the last run, or the given instant before the first run.
abbrev pub base_of : Schedule → ℕ → ℕ
base_of sc after = elim sc.last_run_at [ none ↦ after | some t ↦ t ]

-- A Duration of 64 bits moves an instant by 2 ^ 63 nanoseconds at most.
abbrev IsNear : ℕ → ℕ → Type 0
IsNear base next = (next < base + 2 ^ 63) × (base ≤ next + 2 ^ 63)
