-- ===== src/Tests/Logger.antt =====
-- The theorem on the outputs of a logger at concrete calls.
use yaice.Base.{ℕ, ◌≡◌, ◌≢◌, ◌⊎◌, ◌++◌, refl, Bool, true, List, [], ◌∷◌, some}
use yaice.Config.{LogConfig, default_log}
use yaice.Logger.{
  Level, debug_level, info_level, warn_level, error_level, fatal_level, panic_level, Ending,
  goes_on, exits, unwinds, Entry, Logger, debug_name, new_logger, create_log_core, log_all,
}
use yaice.Logger.Outputs.{written_of, log_all-new_logger}
use yaice.Utils.Tool.{Text, returns}

abbrev debugging : LogConfig
debugging = record default_log { level = debug_name }

abbrev unchanged : Text → Text
unchanged s = s

abbrev joined : Text → Text → Text
joined path file = path ++ (47 ∷ file)

abbrev every : Text → Bool
every path = true

abbrev any_level : Level → Level → Bool
any_level least level = true

abbrev zap_ending : Level → Ending
zap_ending debug_level = goes_on
zap_ending info_level = goes_on
zap_ending warn_level = goes_on
zap_ending error_level = goes_on
zap_ending fatal_level = exits
zap_ending panic_level = unwinds

abbrev debug_logger : Logger ℕ
debug_logger = record {
  core = create_log_core unchanged joined debugging;
  config = debugging;
  fields = [];
}

-- The program ends at the second of three calls.
abbrev three_entries : List (Entry ℕ)
three_entries =
    record { level = info_level; msg = 97 ∷ []; fields = [] }
    ∷ record { level = fatal_level; msg = 98 ∷ []; fields = [] }
    ∷ record { level = info_level; msg = 99 ∷ []; fields = [] }
    ∷ []

debug_logger-made : new_logger unchanged joined every (some debugging) ≡ returns debug_logger
unfolding new_logger
debug_logger-made = refl

log_all-new_logger_example :
    let out =
      log_all any_level zap_ending
        (some debug_logger)
        three_entries
        (record { file = []; console = []; ending = goes_on }) in
    (out.file ≡ written_of any_level zap_ending debug_logger three_entries)
    × (((debugging.level ≡ debug_name) × (out.console ≡ out.file))
        ⊎ ((debugging.level ≢ debug_name) × (out.console ≡ [])))
log_all-new_logger_example =
    log_all-new_logger unchanged joined every any_level zap_ending debugging debug_logger
      three_entries goes_on debug_logger-made
