-- ===== src/Server/Order.antt =====
-- The order of what cmd/server/main.go opens, starts, awaits and closes.
use ermine_tq.Prelude.{
  ℕ, zero, suc, String, Bool, true, false, not, ◌&&◌, ◌≡◌, refl, Option, none, some, List, [], ◌∷◌,
  str_eq, Bool-cases, inl, inr, if◌then◌else◌,
}
use ermine_tq.Config.{Config}
use ermine_tq.Config.Loading.{Loaded, loaded, failed, load_config}
use ermine_tq.Config.Flags.{Flags, Parsed, parsed, exits, parse_server_flags, parse_migrate_flags}
use ermine_tq.Server.{
  Surroundings, Call, Problem, Doing, does, with_store, serve_on, cmd_server, migrate_on,
  cmd_migrate, run_command, open_store, close_store, await_signal, stop_context, start_broker,
  start_pool, start_scheduler, wait_broker, wait_pool, wait_scheduler, config_error, exited,
}

-- Where a reading of the calls stands: whether the store is open, whether the context of the parts has
-- ended, and how many parts run.
pub record Standing : Type 0 where
  pub is_open : Bool
  pub is_over : Bool
  pub running : ℕ

abbrev pub none_left : ℕ → Bool
none_left zero = true
none_left (suc n) = false

abbrev pub less_one : ℕ → ℕ
less_one zero = 0
less_one (suc n) = n

-- The calls keep the rules: one store at a time is open, the parts start on an open store and are
-- waited for once their context has ended, since they run until then, and at the end the store is closed, in
-- a `graceful` run not before each started part has been waited for.
abbrev pub is_tidy : Bool → Standing → List Call → Bool
is_tidy graceful st [] = not st.is_open
is_tidy graceful st (open_store path ∷ cs) =
    not st.is_open && is_tidy graceful (record st { is_open = true }) cs
is_tidy graceful st (close_store ∷ cs) =
    st.is_open
    && ((if graceful then none_left st.running else true)
        && is_tidy graceful (record st { is_open = false }) cs)
is_tidy graceful st (start_broker ∷ cs) =
    st.is_open && is_tidy graceful (record st { running = suc st.running }) cs
is_tidy graceful st (start_pool ∷ cs) =
    st.is_open && is_tidy graceful (record st { running = suc st.running }) cs
is_tidy graceful st (start_scheduler ∷ cs) =
    st.is_open && is_tidy graceful (record st { running = suc st.running }) cs
is_tidy graceful st (wait_broker ∷ cs) =
    st.is_open && (st.is_over && is_tidy graceful (record st { running = less_one st.running }) cs)
is_tidy graceful st (wait_pool ∷ cs) =
    st.is_open && (st.is_over && is_tidy graceful (record st { running = less_one st.running }) cs)
is_tidy graceful st (wait_scheduler ∷ cs) =
    st.is_open && (st.is_over && is_tidy graceful (record st { running = less_one st.running }) cs)
is_tidy graceful st (await_signal ∷ cs) = is_tidy graceful (record st { is_over = true }) cs
is_tidy graceful st (stop_context ∷ cs) = is_tidy graceful (record st { is_over = true }) cs
is_tidy graceful st (_ ∷ cs) = is_tidy graceful st cs

abbrev pub at_rest : Standing
at_rest = record { is_open = false; is_over = false; running = 0 }

abbrev pub succeeded : Option Problem → Bool
succeeded none = true
succeeded (some p) = false

abbrev pub IsTidy : Doing → Type 0
IsTidy d = is_tidy (succeeded d.problem) at_rest d.calls ≡ true

with_store-IsTidy : (a b c : Bool) (db_path : String) → IsTidy (with_store a b c db_path)
unfolding with_store
with_store-IsTidy true true true db_path = refl
with_store-IsTidy true true false db_path = refl
with_store-IsTidy true false c db_path = refl
with_store-IsTidy false b c db_path = refl

module _ (s : Surroundings) where
  serve_on-IsTidy : (db_path addr : String) → IsTidy (serve_on s db_path addr)
  unfolding serve_on
  serve_on-IsTidy db_path addr =
      with_store-IsTidy (s.store_opens db_path) s.pool_is_made (s.http_starts addr) db_path

  migrate_on-IsTidy : (db_path : String) → IsTidy (migrate_on s db_path)
  unfolding migrate_on
  migrate_on-IsTidy db_path = elim (Bool-cases (s.store_opens db_path)) [
    | inr a ↦ rw a refl
    | inl a ↦ elim (Bool-cases s.store_closes) [ inl b ↦ rw (a, b) refl | inr b ↦ rw (a, b) refl ]
  ]

  on_loaded :
      (r : Loaded (Config × String)) (go : String → Doing)
      → ((path : String) → IsTidy (go path))
      → IsTidy (elim r [
        | failed e ↦ does [] (some (config_error e))
        | loaded (cfg, db_path) ↦ go db_path
      ])
  on_loaded (failed e) go h = refl
  on_loaded (loaded (cfg, db_path)) go h = h db_path

  on_parsed :
      (r : Parsed) (go : Flags → String → Doing)
      → ((f : Flags) (path : String) → IsTidy (go f path))
      → IsTidy (elim r [
        | exits status ↦ does [] (some (exited status))
        | parsed f ↦ elim (load_config s.machine f.config f.db) [
          | failed e ↦ does [] (some (config_error e))
          | loaded (cfg, db_path) ↦ go f db_path
        ]
      ])
  on_parsed (exits status) go h = refl
  on_parsed (parsed f) go h = on_loaded (load_config s.machine f.config f.db) (go f) (h f)

  if-IsTidy : (b : Bool) (x y : Doing) → IsTidy x → IsTidy y → IsTidy (if b then x else y)
  if-IsTidy true x y h k = h
  if-IsTidy false x y h k = k

  -- Whatever the arguments, the settings and the failures: the program opens the store at most once
  -- at a time, starts the broker, the pool and the scheduler only while it is open, and ends with
  -- the store closed; it waits for one of the three only once their context has ended; and if it
  -- ends without an error, it has waited for each that it started before it closes the store.
  pub run_command-IsTidy : (args : List String) → IsTidy (run_command s args)
  unfolding run_command cmd_server cmd_migrate
  run_command-IsTidy [] = refl
  run_command-IsTidy (sub ∷ args) =
      if-IsTidy (str_eq sub "server") _ _
        (on_parsed (parse_server_flags args) (λ f p. serve_on s p f.addr)
          (λ f p. serve_on-IsTidy p f.addr))
        (if-IsTidy (str_eq sub "migrate") _ _
          (on_parsed (parse_migrate_flags args) (λ f. migrate_on s) (λ f. migrate_on-IsTidy))
          (if-IsTidy (str_eq sub "version") _ _ refl (
            if-IsTidy (str_eq sub "help") _ _ refl (
              if-IsTidy (str_eq sub "-h") _ _ refl
                (if-IsTidy (str_eq sub "--help") _ _ refl refl)))))
