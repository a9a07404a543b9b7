-- ===== src/Logger.antt =====
-- logger/log.go: the levels, the two outputs of a logger and the global logger. The directory, the lower
-- case of a text, the joined path and the behaviour of the levels are those of the libraries: parameters.
pub mod Outputs
use yaice.Base.{ℕ, Bool, true, false, List, [], ◌∷◌, ◌++◌, Option, none, some}
use yaice.Base.Tests.{if◌then◌else◌}
use yaice.Base.Int.{ℤ, pos}
use yaice.Config.{LogConfig, default_log, or_default}
use yaice.Http.Middleware.{same_text}
use yaice.Utils.Tool.{Text, Run, returns, panics}

pub data Level : Type 0 where
  debug_level info_level warn_level error_level fatal_level panic_level : Level

abbrev pub debug_name : Text
debug_name = 100 ∷ 101 ∷ 98 ∷ 117 ∷ 103 ∷ []

abbrev pub info_name : Text
info_name = 105 ∷ 110 ∷ 102 ∷ 111 ∷ []

abbrev pub warn_name : Text
warn_name = 119 ∷ 97 ∷ 114 ∷ 110 ∷ []

abbrev pub warning_name : Text
warning_name = 119 ∷ 97 ∷ 114 ∷ 110 ∷ 105 ∷ 110 ∷ 103 ∷ []

abbrev pub error_name : Text
error_name = 101 ∷ 114 ∷ 114 ∷ 111 ∷ 114 ∷ []

abbrev pub fatal_name : Text
fatal_name = 102 ∷ 97 ∷ 116 ∷ 97 ∷ 108 ∷ []

abbrev pub panic_name : Text
panic_name = 112 ∷ 97 ∷ 110 ∷ 105 ∷ 99 ∷ []

-- "app.log"
abbrev pub log_file : Text
log_file = 97 ∷ 112 ∷ 112 ∷ 46 ∷ 108 ∷ 111 ∷ 103 ∷ []

-- The configuration that `NewLogger` takes for nil: it keeps ten backups.
abbrev pub nil_config : LogConfig
nil_config = record default_log { max_backups = pos 10 }

-- The file writer, by its settings.
pub record FileWriter : Type 0 where
  pub filename : Text
  pub max_size : ℤ
  pub max_backups : ℤ
  pub max_age : ℤ
  pub compress : Bool

-- The core of a logger: its level, its file, and whether there is a console.
pub record LogCore : Type 0 where
  pub level : Level
  pub file : FileWriter
  pub console : Bool

-- `fields` are those of the logger, with values of a type F.
pub record Logger (F : Type 0) : Type 0 where
  pub core : LogCore
  pub config : LogConfig
  pub fields : List (Text × F)

module _ (to_lower : Text → Text) where
  -- `getLogLevel`
  unfoldable pub get_log_level : Text → Level
  get_log_level level =
      let l = to_lower level in
      if same_text l debug_name
      then debug_level
      else if same_text l info_name
      then info_level
      else if same_text l warn_name
      then warn_level
      else if same_text l warning_name
      then warn_level
      else if same_text l error_name
      then error_level
      else if same_text l fatal_name
      then fatal_level
      else if same_text l panic_name
      then panic_level
      else info_level

  -- `createLogCore`
  unfoldable pub create_log_core : (Text → Text → Text) → LogConfig → LogCore
  unfolding get_log_level
  create_log_core join cfg = record {
    level = get_log_level cfg.level;
    file = record {
      filename = join cfg.path log_file;
      max_size = cfg.max_size;
      max_backups = cfg.max_backups;
      max_age = cfg.max_age;
      compress = cfg.compress;
    };
    console = same_text cfg.level debug_name;
  }

  -- `NewLogger`, with the directories that can be made.
  unfoldable pub new_logger :
      {F : Type 0} → (Text → Text → Text) → (Text → Bool) → Option LogConfig → Run (Logger F)
  unfolding create_log_core or_default
  new_logger join makes cfg =
      let c = or_default nil_config cfg in
      if makes c.path
      then returns (record { core = create_log_core join c; config = c; fields = [] })
      else panics

module _ {F : Type 0} where
  -- The state is `globalLogger`.
  abbrev pub set_global_logger : Option (Logger F) → Option (Logger F) → Option (Logger F)
  set_global_logger logger global_logger = logger

  unfoldable pub with_fields : List (Text × F) → Logger F → Logger F
  with_fields fields l = record l { fields = l.fields ++ fields }

  unfoldable pub with_field : Text → F → Logger F → Logger F
  unfolding with_fields
  with_field key value l = with_fields ((key, value) ∷ []) l

-- A call of `Debug`, `Info`, `Warn`, `Error`, `Fatal` or `Panic`, by its level.
pub record Entry (F : Type 0) : Type 0 where
  pub level : Level
  pub msg : Text
  pub fields : List (Text × F)

-- Whether the process goes on after a call, or how it ends.
pub data Ending : Type 0 where
  goes_on exits unwinds : Ending

abbrev pub if_goes_on {ℓ} : {A : Type ℓ} → Ending → A → A → A
if_goes_on goes_on a b = a
if_goes_on exits a b = b
if_goes_on unwinds a b = b

pub record LogOutput (F : Type 0) : Type 0 where
  pub file : List (Entry F)
  pub console : List (Entry F)
  pub ending : Ending

-- `enabled`: whether a logger of the first level writes an entry of the second; `ending_of`: how a call of a
-- level ends.
module _ {F : Type 0} (enabled : Level → Level → Bool) (ending_of : Level → Ending) where
  -- A call of one of the six functions, which dereferences the global logger.
  unfoldable pub log : Option (Logger F) → Entry F → LogOutput F → LogOutput F
  log none e out = record out { ending = unwinds }
  log (some l) e out =
      let whole = record e { fields = l.fields ++ e.fields } in
      let written = enabled l.core.level e.level in
      record {
        file = if written then out.file ++ (whole ∷ []) else out.file;
        console =
            if written
            then (if l.core.console then out.console ++ (whole ∷ []) else out.console)
            else out.console;
        ending = ending_of e.level;
      }

  -- The calls of a program in their order, up to the one that ends it.
  unfoldable pub log_all : Option (Logger F) → List (Entry F) → LogOutput F → LogOutput F
  unfolding log
  log_all l [] out = out
  log_all l (e ∷ entries) out =
      let next = log l e out in if_goes_on next.ending (log_all l entries next) next
