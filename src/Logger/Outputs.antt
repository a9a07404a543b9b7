-- ===== src/Logger/Outputs.antt =====
-- logger/log.go: which entries reach the file and the console.
use mathlib.Core.List.{append-nil, append_assoc}
use yaice.Base.{
  ◌≡◌, ◌≢◌, ◌⊎◌, refl, sym, ap, ◌∙◌, inl, inr, Bool, true, false, List, [], ◌∷◌, ◌++◌, some, arith,
}
use yaice.Base.Tests.{if◌then◌else◌, Bool-cases}
use yaice.Config.{LogConfig}
use yaice.Http.Cors.{same_text_iff}
use yaice.Http.Middleware.{same_text}
use yaice.Logger.{
  Level, Logger, debug_name, create_log_core, new_logger, Entry, Ending, goes_on, exits, unwinds,
  if_goes_on, LogOutput, log, log_all,
}
use yaice.Utils.Tool.{Text, Run, returns, panics, blocks}

-- What a run adds to the outputs: the same entries to the file and, if there is one, to the console.
pub record Adds {F : Type 0} (console_on : Bool) (entries : List (Entry F)) (out out' : LogOutput F)
    : Type 0 where
  pub file : out'.file ≡ out.file ++ entries
  pub console : out'.console ≡ (if console_on then out.console ++ entries else out.console)

module _ {F : Type 0} where
  Adds-none : (console_on : Bool) (out : LogOutput F) → Adds console_on [] out out
  Adds-none true out = record { file = sym (append-nil _); console = sym (append-nil _) }
  Adds-none false out = record { file = sym (append-nil _); console = refl }

  Adds-trans :
      (console_on : Bool) (entries later : List (Entry F)) (out mid out' : LogOutput F)
      → Adds console_on entries out mid
      → Adds console_on later mid out'
      → Adds console_on (entries ++ later) out out'
  Adds-trans true entries later out mid out' h k = record {
    file = k.file ∙ ap (λ es. es ++ later) h.file ∙ append_assoc out.file entries later;
    console = k.console ∙ ap (λ es. es ++ later) h.console ∙ append_assoc out.console entries later;
  }
  Adds-trans false entries later out mid out' h k = record {
    file = k.file ∙ ap (λ es. es ++ later) h.file ∙ append_assoc out.file entries later;
    console = k.console ∙ h.console;
  }

module _ {F : Type 0} (enabled : Level → Level → Bool) (ending_of : Level → Ending) where
  whole : Logger F → Entry F → Entry F
  whole l e = record e { fields = l.fields ++ e.fields }

  -- Independently of the outputs: the entries that a logger writes of a list of calls, those of the enabled
  -- levels, up to the call that ends the program and with it.
  pub written_of : Logger F → List (Entry F) → List (Entry F)
  unfolding whole
  written_of l [] = []
  written_of l (e ∷ entries) =
      let rest = written_of l entries in
      (if enabled l.core.level e.level then whole l e ∷ [] else [])
      ++ if_goes_on (ending_of e.level) rest []

  log-Adds :
      (l : Logger F) (e : Entry F) (out : LogOutput F) (console_on written : Bool)
      → l.core.console ≡ console_on
      → enabled l.core.level e.level ≡ written
      → Adds console_on
          (if written then whole l e ∷ [] else [])
          out
          (log enabled ending_of (some l) e out)
  unfolding log whole
  log-Adds l e out true true c w = record { file = rw w refl; console = rw (w, c) refl }
  log-Adds l e out false true c w = record { file = rw w refl; console = rw (w, c) refl }
  log-Adds l e out true false c w = record {
    file = rw w (sym (append-nil _));
    console = rw w (sym (append-nil _));
  }
  log-Adds l e out false false c w = record {
    file = rw w (sym (append-nil _));
    console = rw w refl;
  }

  -- What the rest of the calls adds, where the call before it does not end the program.
  after_ending :
      (x : Ending) (console_on : Bool) (rest : List (Entry F)) (out out' : LogOutput F)
      → Adds console_on rest out out'
      → Adds console_on (if_goes_on x rest []) out (if_goes_on x out' out)
  after_ending goes_on console_on rest out out' h = h
  after_ending exits console_on rest out out' h = Adds-none console_on out
  after_ending unwinds console_on rest out out' h = Adds-none console_on out

  log_all-Adds :
      (l : Logger F) (entries : List (Entry F)) (out : LogOutput F)
      → Adds l.core.console
          (written_of l entries)
          out
          (log_all enabled ending_of (some l) entries out)
  unfolding log_all log written_of
  log_all-Adds l [] out = Adds-none l.core.console out
  log_all-Adds l (e ∷ entries) out =
      let next = log enabled ending_of (some l) e out in
      Adds-trans l.core.console _ _ out next _
        (log-Adds l e out l.core.console (enabled l.core.level e.level) refl refl)
        (after_ending (ending_of e.level) l.core.console (written_of l entries) next _
          (log_all-Adds l entries next))

new_logger-console :
    {F : Type 0} (to_lower : Text → Text) (join : Text → Text → Text) (makes : Text → Bool)
    (c : LogConfig) (l : Logger F)
    → new_logger to_lower join makes (some c) ≡ returns l
    → l.core.console ≡ same_text c.level debug_name
unfolding new_logger create_log_core
new_logger-console {F} to_lower join makes c l made = elim (Bool-cases (makes c.path)) [
  | inl t ↦ ap console_of (sym made ∙ ap (λ (b : Bool). if b then returns fresh else panics) t)
  | inr f ↦ absurd (ground (arith, f, made))
]
  where
    fresh : Logger F
    fresh = record { core = create_log_core to_lower join c; config = c; fields = [] }

    console_of : Run (Logger F) → Bool
    console_of (returns l) = l.core.console
    console_of panics = false
    console_of blocks = false

-- The logger of a configuration writes every call of an enabled level to its file, in their order, up to the
-- call that ends the program and with it, and the same calls to the console where the name of its level is
-- "debug" to the letter; in any other case the console gets nothing.
pub log_all-new_logger :
    {F : Type 0} (to_lower : Text → Text) (join : Text → Text → Text) (makes : Text → Bool)
    (enabled : Level → Level → Bool) (ending_of : Level → Ending) (c : LogConfig) (l : Logger F)
    (entries : List (Entry F)) (ending : Ending)
    → new_logger to_lower join makes (some c) ≡ returns l
    → let out =
        log_all enabled ending_of
          (some l)
          entries
          (record { file = []; console = []; ending = ending }) in
      (out.file ≡ written_of enabled ending_of l entries)
      × (((c.level ≡ debug_name) × (out.console ≡ out.file))
          ⊎ ((c.level ≢ debug_name) × (out.console ≡ [])))
unfolding new_logger create_log_core
log_all-new_logger to_lower join makes enabled ending_of c l entries ending made =
    let added =
      log_all-Adds enabled ending_of l entries
        (record { file = []; console = []; ending = ending }) in
    elim (same_text_iff c.level debug_name) [
      | inl (e, same) ↦
          let on = new_logger-console to_lower join makes c l made ∙ e in
          (
            added.file,
            inl (
              same,
              added.console
                  ∙ ap (λ (b : Bool). if b then written_of enabled ending_of l entries else []) on
                  ∙ sym added.file,
            ),
          )
      | inr (e, apart) ↦
          let off = new_logger-console to_lower join makes c l made ∙ e in
          (
            added.file,
            inr (
              apart,
              added.console
                  ∙ ap (λ (b : Bool). if b then written_of enabled ending_of l entries else []) off,
            ),
          )
    ]
