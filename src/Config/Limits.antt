-- ===== src/Config/Limits.antt =====
-- What loaded settings are: internal/config/config.go and loadConfig of cmd/server/main.go.
use ermine_tq.Prelude.{
  String, ◌≡◌, refl, subst, none, some, List, [], ◌∷◌, pos, negsuc, ◌≤ℤ◌, ltb_ℤ, All, Bool-cases,
  Option-cases, inl, inr, arith,
}
use mathlib.Core.List.{Memᴰ}
use ermine_tq.Config.{QueueConfig, TaskTypeConfig, Config}
use ermine_tq.Config.Loading.{
  FileStatus, missing, unreadable, present, Machine, ConfigError, bad_global, bad_queue,
  bad_task_type, stat_failed, malformed, Loaded, loaded, failed, defaults, check_queues,
  check_task_types, validate, read_file, set_db, validated, ◌>>=◌, load,
}

-- At least one task may run, and no limit is negative.
pub record IsValid (c : Config) : Type 0 where
  pub global : pos 1 ≤ℤ c.limits.global
  pub queues : All (λ (name, q). pos 0 ≤ℤ q.limit) c.queues
  pub task_types : All (λ (name, t). pos 0 ≤ℤ t.limit) c.task_types

check_queues-none :
    (qs : List (String × QueueConfig))
    → check_queues qs ≡ none
    → All (λ (name, q). pos 0 ≤ℤ q.limit) qs
unfolding check_queues
check_queues-none [] h = tt
check_queues-none ((name, q) ∷ qs) h = (ground arith, check_queues-none qs (ground arith))

check_task_types-none :
    (ts : List (String × TaskTypeConfig))
    → check_task_types ts ≡ none
    → All (λ (name, t). pos 0 ≤ℤ t.limit) ts
unfolding check_task_types
check_task_types-none [] h = tt
check_task_types-none ((name, t) ∷ ts) h = (ground arith, check_task_types-none ts (ground arith))

validate-IsValid : (c : Config) → validate c ≡ none → IsValid c
unfolding validate
validate-IsValid c h = record {
  global = ground arith;
  queues = check_queues-none c.queues (ground arith);
  task_types = check_task_types-none c.task_types (ground arith);
}

-- The settings that the file gives, over the defaults.
pub data Source (m : Machine) (path : String) : Config → Type 0 where
  from_defaults : m.stat path ≡ missing → Source m path defaults
  from_file :
      (c : Config) → m.stat path ≡ present → m.decode_file path defaults ≡ some c → Source m path c

-- Why settings are refused.
pub data Fault (c : Config) : ConfigError → Type 0 where
  global : c.limits.global ≤ℤ pos 0 → Fault c (bad_global c.limits.global)
  queue :
      (name : String) (q : QueueConfig)
      → Memᴰ (name, q) c.queues
      → q.limit ≤ℤ negsuc 0
      → Fault c (bad_queue name q.limit)
  task_type :
      (name : String) (t : TaskTypeConfig)
      → Memᴰ (name, t) c.task_types
      → t.limit ≤ℤ negsuc 0
      → Fault c (bad_task_type name t.limit)

-- How Load ends.
pub data Verdict (m : Machine) (path : String) : Loaded Config → Type 0 where
  takes :
      (c : Config) → Source m path c → IsValid (set_db m c) → Verdict m path (loaded (set_db m c))
  lacks_access : m.stat path ≡ unreadable → Verdict m path (failed stat_failed)
  lacks_form :
      m.stat path ≡ present → m.decode_file path defaults ≡ none → Verdict m path (failed malformed)
  refuses : (c : Config) (e : ConfigError) → Source m path c → Fault c e → Verdict m path (failed e)

check_queues-Fault :
    (c : Config) (rows : List (String × QueueConfig)) (e : ConfigError)
    → ((x : String × QueueConfig) → Memᴰ x rows → Memᴰ x c.queues)
    → check_queues rows ≡ some e
    → Fault c e
unfolding check_queues
check_queues-Fault c [] e sub h = let k : none ≡ some e = h in cc
check_queues-Fault c ((name, q) ∷ rows) e sub h = elim (Bool-cases (ltb_ℤ q.limit (pos 0))) [
  | inl b ↦
      let k : some (bad_queue name q.limit) ≡ some e = rw b at h in
      let p : bad_queue name q.limit ≡ e = cc in
      subst (Fault c) p (queue name q (sub _ (Memᴰ.head refl)) (ground arith))
  | inr b ↦
      let k : check_queues rows ≡ some e = rw b at h in
      check_queues-Fault c rows e (λ x i. sub x (Memᴰ.tail i)) k
]

check_task_types-Fault :
    (c : Config) (rows : List (String × TaskTypeConfig)) (e : ConfigError)
    → ((x : String × TaskTypeConfig) → Memᴰ x rows → Memᴰ x c.task_types)
    → check_task_types rows ≡ some e
    → Fault c e
unfolding check_task_types
check_task_types-Fault c [] e sub h = let k : none ≡ some e = h in cc
check_task_types-Fault c ((name, t) ∷ rows) e sub h = elim (Bool-cases (ltb_ℤ t.limit (pos 0))) [
  | inl b ↦
      let k : some (bad_task_type name t.limit) ≡ some e = rw b at h in
      let p : bad_task_type name t.limit ≡ e = cc in
      subst (Fault c) p (task_type name t (sub _ (Memᴰ.head refl)) (ground arith))
  | inr b ↦
      let k : check_task_types rows ≡ some e = rw b at h in
      check_task_types-Fault c rows e (λ x i. sub x (Memᴰ.tail i)) k
]

validate-Fault : (c : Config) (e : ConfigError) → validate c ≡ some e → Fault c e
unfolding validate
validate-Fault c e h = elim (Bool-cases (ltb_ℤ c.limits.global (pos 1))) [
  | inl b ↦
      let k : some (bad_global c.limits.global) ≡ some e = rw b at h in
      let p : bad_global c.limits.global ≡ e = cc in subst (Fault c) p (global (ground arith))
  | inr b ↦ elim (Option-cases (check_queues c.queues)) [
    | inl q ↦
        let k : check_task_types c.task_types ≡ some e = rw (b, q) at h in
        check_task_types-Fault c c.task_types e (λ x i. i) k
    | inr (f, q) ↦
        let k : some f ≡ some e = rw (b, q) at h in
        let p : f ≡ e = cc in subst (Fault c) p (check_queues-Fault c c.queues f (λ x i. i) q)
  ]
]

module _ (m : Machine) where
  set_db-Fault : (c : Config) (e : ConfigError) → Fault (set_db m c) e → Fault c e
  unfolding set_db
  set_db-Fault c e (global h) = global h
  set_db-Fault c e (queue name q i h) = queue name q i h
  set_db-Fault c e (task_type name t i h) = task_type name t i h

  finish :
      (path : String) (c : Config)
      → Source m path c
      → Verdict m path (validated (validate (set_db m c)) (set_db m c))
  finish path c s = elim (Option-cases (validate (set_db m c))) [
    | inl v ↦ rw v (takes c s (validate-IsValid _ v))
    | inr (e, v) ↦ rw v (refuses c e s (set_db-Fault c e (validate-Fault _ e v)))
  ]

  -- Load fails because the file cannot be looked at, because it cannot be decoded, or because the
  -- settings of the file (or the defaults, without a file) have a global limit below 1 or a
  -- negative limit of a queue or a task type; the error says which. Else it returns these settings
  -- with the path of the database set, and they are valid.
  pub load-Verdict : (path : String) → Verdict m path (load m path)
  unfolding load read_file
  load-Verdict path = by_status (m.stat path) refl
    where
      by_status :
          (s : FileStatus)
          → m.stat path ≡ s
          → Verdict m path
              (read_file m path s >>= (λ c. validated (validate (set_db m c)) (set_db m c)))
      by_status missing h = finish path defaults (from_defaults h)
      by_status unreadable h = lacks_access h
      by_status present h = elim (Option-cases (m.decode_file path defaults)) [
        | inl d ↦ rw (read_file, d) (lacks_form h d)
        | inr (c, d) ↦ rw (read_file, d) (finish path c (from_file c h d))
      ]
