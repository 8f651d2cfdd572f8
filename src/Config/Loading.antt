-- ===== src/Config/Loading.antt =====
-- internal/config/config.go: Load, ConfigFilePath and validate; and loadConfig of
-- cmd/server/main.go. The environment, the file system and the TOML decoder are parameters.
use ermine_tq.Prelude.{
  String, not, Option, none, some, List, [], ◌∷◌, ℤ, pos, str_eq, ltb_ℤ, if◌then◌else◌,
}
use ermine_tq.Config.{QueueConfig, TaskTypeConfig, Config}

-- What os.Stat says of a path.
pub data FileStatus : Type 0 where
  missing unreadable present : FileStatus

pub record Machine : Type 0 where
  pub getenv : String → String
  pub stat : String → FileStatus
  -- toml.DecodeFile: the settings with those of the file written over them; `none` is an error.
  pub decode_file : String → Config → Option Config

pub data ConfigError : Type 0 where
  stat_failed malformed : ConfigError
  bad_global : ℤ → ConfigError
  bad_queue bad_task_type : String → ℤ → ConfigError

pub data Loaded {ℓ} (A : Type ℓ) : Type ℓ where
  loaded : A → Loaded A
  failed : ConfigError → Loaded A

infixl 5 ◌>>=◌
abbrev pub ◌>>=◌ {ℓ κ} : {A : Type ℓ} {B : Type κ} → Loaded A → (A → Loaded B) → Loaded B
◌>>=◌ (loaded a) f = f a
◌>>=◌ (failed e) f = failed e

abbrev pub env_db : String
env_db = "ERMINETQ_DB"

abbrev pub env_config : String
env_config = "ERMINETQ_CONFIG"

abbrev pub default_config_path : String
default_config_path = "erminetq.toml"

abbrev pub default_global_limit : ℤ
default_global_limit = pos 128

abbrev pub defaults : Config
defaults = record {
  db = record { path = "" };
  limits = record { global = default_global_limit };
  queues = [];
  task_types = [];
}

-- The loops of `validate`. Go ranges over a map in any order, so with several bad entries
-- the error may name another of them.
unfoldable pub check_queues : List (String × QueueConfig) → Option ConfigError
check_queues [] = none
check_queues ((name, q) ∷ rest) =
    let later = check_queues rest in
    if ltb_ℤ q.limit (pos 0) then some (bad_queue name q.limit) else later

unfoldable pub check_task_types : List (String × TaskTypeConfig) → Option ConfigError
check_task_types [] = none
check_task_types ((name, t) ∷ rest) =
    let later = check_task_types rest in
    if ltb_ℤ t.limit (pos 0) then some (bad_task_type name t.limit) else later

abbrev or_else : Option ConfigError → Option ConfigError → Option ConfigError
or_else none later = later
or_else (some e) later = some e

unfoldable pub validate : Config → Option ConfigError
unfolding check_queues check_task_types
validate c =
    if ltb_ℤ c.limits.global (pos 1)
    then some (bad_global c.limits.global)
    else or_else (check_queues c.queues) (check_task_types c.task_types)

abbrev pub with_path : String → Config → Config
with_path path c = record c { db = record { path = path } }

abbrev pub validated : Option ConfigError → Config → Loaded Config
validated none c = loaded c
validated (some e) c = failed e

module _ (m : Machine) where
  unfoldable pub read_file : String → FileStatus → Loaded Config
  read_file path missing = loaded defaults
  read_file path unreadable = failed stat_failed
  read_file path present = elim (m.decode_file path defaults) [
    | none ↦ failed malformed
    | some c ↦ loaded c
  ]

  -- ERMINETQ_DB goes over the file, and an empty path is filled in.
  unfoldable pub set_db : Config → Config
  set_db c =
      let v = m.getenv env_db in
      let path = if not (str_eq v "") then v else c.db.path in
      with_path (if str_eq path "" then "erminetq.db" else path) c

  unfoldable pub load : String → Loaded Config
  unfolding read_file set_db validate
  load path = do c ← read_file path (m.stat path); let cfg = set_db c; validated (validate cfg) cfg

  unfoldable pub config_file_path : String → String
  config_file_path flag =
      let v = m.getenv env_config in
      if not (str_eq flag "") then flag else if not (str_eq v "") then v else default_config_path

  -- The settings and the path of the database, from the flags -config and -db.
  unfoldable pub load_config : String → String → Loaded (Config × String)
  unfolding load config_file_path
  load_config config_flag db_flag = do
    cfg ← load (config_file_path config_flag)
    loaded (cfg, if not (str_eq db_flag "") then db_flag else cfg.db.path)
