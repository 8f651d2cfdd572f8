-- ===== src/Scheduler/NextRun.antt =====
-- internal/scheduler/next_run.go: computeNextRun.
pub mod Intervals
use ermine_tq.Prelude.{
  ℕ, suc, ◌+◌, ◌-◌, ◌*◌, ◌%◌, ◌^◌, ltb, leb, ◌==◌, if◌then◌else◌, String, Option, none, some, ℤ,
  pos, negsuc,
}
use ermine_tq.Store.Models.{Schedule, second}

-- The parser of robfig/cron: `none` for an expression that it refuses, else `Next`.
abbrev pub CronParser : Type 0
CronParser = String → Option (ℕ → ℕ)

-- What a product comes to in the 64 bits of a Duration.
abbrev pub wrapped : ℕ → ℤ
wrapped n = let r = n % 2 ^ 64 in if ltb r (2 ^ 63) then pos r else negsuc (2 ^ 64 - suc r)

abbrev pub wrapped_minus : ℕ → ℤ
wrapped_minus n =
    let r = n % 2 ^ 64 in
    if r == 0 then pos 0 else (if leb r (2 ^ 63) then negsuc (r - 1) else pos (2 ^ 64 - r))

-- time.Duration(secs) * time.Second
unfoldable pub seconds : ℤ → ℤ
seconds (pos n) = wrapped (n * second)
seconds (negsuc n) = wrapped_minus (suc n * second)

-- Time.Add. A Duration goes back 2 ^ 63 nanoseconds at most, so a sum of an instant after the year
-- 293 is none before Go's zero time; an earlier sum is the zero time here.
unfoldable pub add_duration : ℕ → ℤ → ℕ
add_duration base (pos n) = base + n
add_duration base (negsuc n) = base - suc n

-- `none` stands for an error.
unfoldable pub compute_next_run : CronParser → Schedule → ℕ → Option ℕ
unfolding add_duration seconds
compute_next_run parse sc after = elim sc.cron_expr [
  | some expr ↦ elim (parse expr) [ none ↦ none | some next ↦ some (next after) ]
  | none ↦ elim sc.interval_secs [
    | some secs ↦
        some (add_duration (elim sc.last_run_at [ none ↦ after | some t ↦ t ]) (seconds secs))
    | none ↦ none
  ]
]
