-- ===== src/Config/Precedence.antt =====
-- Which of the flags, the variables, the file and the defaults settles the path of the database:
-- internal/config/config.go and loadConfig of cmd/server/main.go.
use ermine_tq.Prelude.{
  String, not, ◌≡◌, refl, sym, subst, ◌∙◌, ap, none, some, List, [], ◌∷◌, str_eq, if◌then◌else◌,
  arith,
}
use ermine_tq.Config.{Config}
use ermine_tq.Config.Loading.{
  missing, unreadable, present, Machine, Loaded, loaded, failed, ◌>>=◌, defaults, set_db, load,
  config_file_path, load_config, env_db, env_config, default_config_path,
}
use ermine_tq.Config.Limits.{
  IsValid, Source, from_defaults, from_file, Verdict, takes, lacks_access, lacks_form, refuses,
  load-Verdict,
}

-- The first text that is not empty, or else the last resort.
abbrev pub first_given : List String → String → String
first_given [] last = last
first_given (s ∷ ss) last = let rest = first_given ss last in if str_eq s "" then rest else s

-- The path of the database that the file gives; empty if it gives none or is not there.
abbrev pub path_in_file : Machine → String → String
path_in_file m path = elim (m.stat path) [
  | missing ↦ ""
  | unreadable ↦ ""
  | present ↦ elim (m.decode_file path defaults) [ none ↦ "" | some c ↦ c.db.path ]
]

module _ (m : Machine) where
  Source-path : (path : String) (c : Config) → Source m path c → c.db.path ≡ path_in_file m path
  Source-path path _ (from_defaults h) = rw (path_in_file, h) refl
  Source-path path _ (from_file c h d) = rw (path_in_file, h, d) refl

  set_db-path :
      (c : Config)
      → (set_db m c).db.path ≡ first_given (m.getenv env_db ∷ c.db.path ∷ []) "erminetq.db"
  unfolding set_db
  set_db-path c = ground arith

  Verdict-loaded :
      (path : String) (r : Loaded Config) (c : Config)
      → Verdict m path r
      → r ≡ loaded c
      → IsValid c
        × (c.db.path ≡ first_given (m.getenv env_db ∷ path_in_file m path ∷ []) "erminetq.db")
  Verdict-loaded path _ c (takes d s v) h =
      let e : set_db m d ≡ c = cc in
      (
        subst IsValid e v,
        ap (λ x. x.db.path) (sym e)
            ∙ (set_db-path d
                ∙ ap (λ p. first_given (m.getenv env_db ∷ p ∷ []) "erminetq.db")
                    (Source-path path d s)),
      )
  Verdict-loaded path _ c (lacks_access s) h = cc
  Verdict-loaded path _ c (lacks_form s d) h = cc
  Verdict-loaded path _ c (refuses d e s f) h = cc

  config_file_path-given :
      (flag : String)
      → config_file_path m flag ≡ first_given (flag ∷ m.getenv env_config ∷ []) default_config_path
  unfolding config_file_path
  config_file_path-given flag = ground arith

  flagged :
      (flag path a b last : String)
      → path ≡ first_given (a ∷ b ∷ []) last
      → (if not (str_eq flag "") then flag else path) ≡ first_given (flag ∷ a ∷ b ∷ []) last
  flagged flag path a b last h = ground arith

  -- Of settings that loadConfig returns, the path of the database is the first of these that is
  -- not empty: the flag -db, ERMINETQ_DB, the path in the file, "erminetq.db". The file is named by
  -- the first of these that is not empty: the flag -config, ERMINETQ_CONFIG, "erminetq.toml". The
  -- settings have a global limit of at least 1 and no negative limit.
  pub load_config-path :
      (config_flag db_flag : String) (c : Config) (db_path : String)
      → load_config m config_flag db_flag ≡ loaded (c, db_path)
      → IsValid c
        × (db_path
            ≡ first_given
                (db_flag
                  ∷ m.getenv env_db
                  ∷ path_in_file m
                      (first_given (config_flag ∷ m.getenv env_config ∷ []) default_config_path)
                  ∷ [])
                "erminetq.db")
  unfolding load_config
  load_config-path config_flag db_flag c db_path h = by_result (load m file) refl h
    where
      file : String
      file = config_file_path m config_flag

      by_result :
          (r : Loaded Config)
          → load m file ≡ r
          → ◌>>=◌ {B = Config × String} r
              (λ cfg. loaded (cfg, if not (str_eq db_flag "") then db_flag else cfg.db.path))
            ≡ loaded (c, db_path)
          → IsValid c
            × (db_path
                ≡ first_given
                    (db_flag
                      ∷ m.getenv env_db
                      ∷ path_in_file m
                          (first_given (config_flag ∷ m.getenv env_config ∷ []) default_config_path)
                      ∷ [])
                    "erminetq.db")
      by_result (failed e) l h = cc
      by_result (loaded d) l h =
          let e : d ≡ c = cc in
          let p : (if not (str_eq db_flag "") then db_flag else d.db.path) ≡ db_path = cc in
          let (v, q) =
            Verdict-loaded file (loaded d) d (subst (Verdict m file) l (load-Verdict m file))
              refl in
          (
            subst IsValid e v,
            sym p
                ∙ (flagged db_flag d.db.path (m.getenv env_db) (path_in_file m file) "erminetq.db" q
                    ∙ ap
                        (λ f.
                          first_given (db_flag ∷ m.getenv env_db ∷ path_in_file m f ∷ [])
                            "erminetq.db")
                        (config_file_path-given config_flag)),
          )
