-- ===== src/Examples/Settings.antt =====
-- Settings from a file that gives a path and limits, and from none.
use ermine_tq.Prelude.{◌≡◌, refl, some, [], ◌∷◌, pos, negsuc}
use ermine_tq.Config.{Config}
use ermine_tq.Config.Loading.{
  present, Machine, loaded, failed, bad_queue, load, load_config, read_file, set_db, validate,
  check_queues, check_task_types, config_file_path, env_db, env_config,
}
use ermine_tq.Config.Limits.{IsValid, Verdict, load-Verdict}
use ermine_tq.Config.Precedence.{first_given, path_in_file, load_config-path}

abbrev pub in_file : Config
in_file = record {
  db = record { path = "tasks.db" };
  limits = record { global = pos 2 };
  queues = ("default", record { limit = pos 1 }) ∷ [];
  task_types = [];
}

-- The file is there, and no variable is set.
abbrev pub a_machine : Machine
a_machine = record {
  getenv = λ v. "";
  stat = λ path. present;
  decode_file = λ path base. some in_file;
}

-- A file with a negative limit.
abbrev a_bad_machine : Machine
a_bad_machine = record {
  getenv = λ v. "";
  stat = λ path. present;
  decode_file =
      λ path base. some (record in_file { queues = ("q", record { limit = negsuc 4 }) ∷ [] });
}

pub loads : load_config a_machine "" "" ≡ loaded (in_file, "tasks.db")
unfolding load_config load read_file set_db validate check_queues check_task_types config_file_path
loads = refl

refuses_negative : load_config a_bad_machine "" "" ≡ failed (bad_queue "q" (negsuc 4))
unfolding load_config load read_file set_db validate check_queues check_task_types config_file_path
refuses_negative = refl

load-Verdict_example : Verdict a_bad_machine "x.toml" (load a_bad_machine "x.toml")
load-Verdict_example = load-Verdict a_bad_machine "x.toml"

load_config-path_example :
    IsValid in_file
    × ("tasks.db"
        ≡ first_given
            (""
              ∷ a_machine.getenv env_db
              ∷ path_in_file a_machine
                  (first_given ("" ∷ a_machine.getenv env_config ∷ []) "erminetq.toml")
              ∷ [])
            "erminetq.db")
load_config-path_example = load_config-path a_machine "" "" in_file "tasks.db" loads
