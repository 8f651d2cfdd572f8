-- ===== src/Scheduler/Settings.antt =====
-- internal/scheduler/scheduler.go: the settings of the scheduler.
use ermine_tq.Prelude.{ℕ, ◌*◌, ℤ, pos, leb_ℤ, if◌then◌else◌}

-- Durations are in nanoseconds.
pub record SchedulerConfig : Type 0 where
  pub retry_interval : ℤ
  pub scan_interval : ℤ
  pub heartbeat_cutoff : ℤ
  pub task_poll_interval : ℤ

abbrev pub seconds : ℕ → ℤ
seconds n = pos (n * 1_000_000_000)

abbrev pub or_if_unset : ℤ → ℤ → ℤ
or_if_unset d t = if leb_ℤ t (pos 0) then d else t

unfoldable pub apply_defaults : SchedulerConfig → SchedulerConfig
apply_defaults c = record {
  retry_interval = or_if_unset (seconds 5) c.retry_interval;
  scan_interval = or_if_unset (seconds 30) c.scan_interval;
  heartbeat_cutoff = or_if_unset (seconds 60) c.heartbeat_cutoff;
  task_poll_interval = or_if_unset (seconds 10) c.task_poll_interval;
}
